-- ===== src/Hitl/GateLaws.antt =====
-- What the gate of a rule lets through.
use reg_engine_ai.Base.{
  ◌≡◌, refl, Bool, true, false, not, ◌&&◌, ◌||◌, Option, none, some, List, [], ◌∷◌, arith, any_of,
  all_of, keep_if, is_empty, if◌then◌else◌,
}
use reg_engine_ai.Hitl.Models.{hitl_advisory, hitl_blocking, hitl_resolved, HitlReview}
use reg_engine_ai.Hitl.Gate.{
  is_approved, is_unresolved, is_disqualifying, unresolved_blocking, first_disqualification,
  evaluate_rule_hitl_gate,
}

-- every review of the rule is resolved
abbrev pub all_approved : List HitlReview → Bool
all_approved = all_of (λ r. is_approved r.status)

abbrev has_reason {ℓ} : {A : Type ℓ} → Option A → Bool
has_reason none = false
has_reason (some e) = true

first_disqualification-any :
    (rs : List HitlReview)
    → has_reason (first_disqualification rs) ≡ any_of (λ r. is_disqualifying r.status) rs
unfolding first_disqualification
first_disqualification-any [] = refl
first_disqualification-any (r ∷ rs) = ground (arith, first_disqualification-any rs)

module _ (p : HitlReview → Bool) where
  is_empty-keep_if : (rs : List HitlReview) → is_empty (keep_if p rs) ≡ not (any_of p rs)
  is_empty-keep_if [] = refl
  is_empty-keep_if (r ∷ rs) = ground (arith, is_empty-keep_if rs)

-- The three tests of the gate against the statuses: a review that no test stops is resolved.
all_approved-tests :
    (rs : List HitlReview)
    → all_approved rs ≡ (
        not (any_of (λ r. is_disqualifying r.status) rs)
        && not (any_of (λ r. is_unresolved r.status) rs))
all_approved-tests [] = refl
all_approved-tests (r ∷ rs) = ground (arith, all_approved-tests rs)

not_approved-all :
    (rs : List HitlReview) → any_of (λ r. not (is_approved r.status)) rs ≡ not (all_approved rs)
not_approved-all [] = refl
not_approved-all (r ∷ rs) = ground (arith, not_approved-all rs)

blocking-not_approved :
    (rs : List HitlReview) → any_of unresolved_blocking rs && all_approved rs ≡ false
blocking-not_approved [] = refl
blocking-not_approved (r ∷ rs) = ground (arith, blocking-not_approved rs)

-- A rule may be activated exactly when every one of its reviews is resolved; otherwise its status
-- is blocking, unless nothing disqualifies it and only advisory reviews are open.
pub gate_exact :
    (rs : List HitlReview)
    → let v = evaluate_rule_hitl_gate rs in
      (v.can_activate ≡ all_approved rs)
      × (v.target_status ≡ (
          if all_approved rs
          then hitl_resolved
          else if any_of (λ r. is_disqualifying r.status) rs || any_of unresolved_blocking rs
          then hitl_blocking
          else hitl_advisory))
unfolding evaluate_rule_hitl_gate
gate_exact rs = ground (
  arith,
  first_disqualification-any rs,
  is_empty-keep_if unresolved_blocking rs,
  is_empty-keep_if (λ r. is_unresolved r.status) rs,
  is_empty-keep_if (λ r. not (is_approved r.status)) rs,
  all_approved-tests rs,
  not_approved-all rs,
  blocking-not_approved rs,
)
