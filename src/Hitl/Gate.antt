-- ===== src/Hitl/Gate.antt =====
-- app/services/hitl_service.py: `evaluate_rule_hitl_gate`, whether the reviews of a rule let it be
-- activated. A reason is kept as data, before it is printed.
use reg_engine_ai.Base.{
  String, Bool, true, false, not, ◌&&◌, Option, none, some, List, [], ◌∷◌, map, keep_if,
}
use reg_engine_ai.Hitl.Models.{
  ReviewStatus, pending, in_review, resolved, rejected, revision_required, Severity, blocking,
  advisory, RuleHitlStatus, hitl_advisory, hitl_blocking, hitl_resolved, HitlReview,
}

pub data GateReason : Type 0 where
  was_rejected requires_revision : String → GateReason
  blocking_unresolved advisory_unresolved not_approved : List String → GateReason

pub record Verdict : Type 0 where
  pub can_activate : Bool
  pub target_status : RuleHitlStatus
  pub reason : Option GateReason

-- APPROVED_STATUS, UNRESOLVED_STATUSES, DISQUALIFYING_STATUSES, BLOCKING_SEVERITY
abbrev pub is_approved : ReviewStatus → Bool
is_approved resolved = true
is_approved _ = false

abbrev pub is_unresolved : ReviewStatus → Bool
is_unresolved pending = true
is_unresolved in_review = true
is_unresolved _ = false

abbrev pub is_disqualifying : ReviewStatus → Bool
is_disqualifying rejected = true
is_disqualifying revision_required = true
is_disqualifying _ = false

abbrev pub is_blocking : Severity → Bool
is_blocking blocking = true
is_blocking advisory = false

abbrev pub disqualification : HitlReview → Option GateReason
disqualification r = elim r.status [
  | rejected ↦ some (was_rejected r.review_id)
  | revision_required ↦ some (requires_revision r.review_id)
  | _ ↦ none
]

-- the first loop: the first review that disqualifies the rule
unfoldable pub first_disqualification : List HitlReview → Option GateReason
first_disqualification [] = none
first_disqualification (r ∷ rs) = elim (disqualification r) [
  | some e ↦ some e
  | none ↦ first_disqualification rs
]

abbrev pub ids_of : List HitlReview → List String
ids_of = map (λ r. r.review_id)

abbrev pub unresolved_blocking : HitlReview → Bool
unresolved_blocking r = is_blocking r.severity && not (is_approved r.status)

abbrev non_approved_verdict : List HitlReview → Verdict
non_approved_verdict [] = record {
  can_activate = true;
  target_status = hitl_resolved;
  reason = none;
}
non_approved_verdict (r ∷ rs) = record {
  can_activate = false;
  target_status = hitl_blocking;
  reason = some (not_approved (ids_of (r ∷ rs)));
}

abbrev advisory_verdict : List HitlReview → Verdict → Verdict
advisory_verdict [] next = next
advisory_verdict (r ∷ rs) next = record {
  can_activate = false;
  target_status = hitl_advisory;
  reason = some (advisory_unresolved (ids_of (r ∷ rs)));
}

abbrev blocking_verdict : List HitlReview → Verdict → Verdict
blocking_verdict [] next = next
blocking_verdict (r ∷ rs) next = record {
  can_activate = false;
  target_status = hitl_blocking;
  reason = some (blocking_unresolved (ids_of (r ∷ rs)));
}

abbrev disqualified_verdict : Option GateReason → Verdict → Verdict
disqualified_verdict none next = next
disqualified_verdict (some e) next = record {
  can_activate = false;
  target_status = hitl_blocking;
  reason = some e;
}

-- With no review every step passes, as the early return does.
unfoldable pub evaluate_rule_hitl_gate : List HitlReview → Verdict
evaluate_rule_hitl_gate reviews = disqualified_verdict (first_disqualification reviews) (
    blocking_verdict (keep_if unresolved_blocking reviews) (
      advisory_verdict (keep_if (λ r. is_unresolved r.status) reviews)
        (non_approved_verdict (keep_if (λ r. not (is_approved r.status)) reviews))))
