-- ===== src/Hitl/Tests.antt =====
-- The review service at a circular with one clause, whose rule two tenants have.
use reg_engine_ai.Base.{
  ◌≡◌, refl, true, false, none, some, [], ◌∷◌, String, ok, err, is_empty, ◌⊎◌, ◌==◌, find_row,
  if◌then◌else◌,
}
use reg_engine_ai.Hitl.Models.{
  revision_required, pending, resolved, blocking, hitl_blocking, hitl_resolved, awaiting_hitl,
  HitlReview, CompiledRule, Circular, Db,
}
use reg_engine_ai.Hitl.Gate.{evaluate_rule_hitl_gate}
use reg_engine_ai.Hitl.GateLaws.{all_approved, gate_exact}
use reg_engine_ai.Hitl.Service.{
  name_error, already_resolved, get_review_or_404, get_pending_review, reviews_of, circular_of,
  clause_ids, approve_circular, Approval, Officer, approve_review,
}
use reg_engine_ai.Hitl.Refusal.{is_failed, reaches_missing_name, reject_review, request_revision}
use reg_engine_ai.Hitl.Gating.{IsGated}
use reg_engine_ai.Hitl.Steps.{approves, start, next, Reaches-IsGated, Decides-final}
use reg_engine_ai.Hitl.Effects.{
  only_active, never_active, approve_review_exact, Stalls, IsRefused, request_revision_exact,
  reject_review_effect,
}
use reg_engine_ai.Hitl.Circulars.{moves_on, IsMoved, approve_circular_exact}

abbrev officer : Officer
officer = record { principal_subject = "officer-1"; notes = none; now = 5 }

abbrev no_hash : String → String
no_hash s = s

abbrev open_review : HitlReview
open_review = record {
  id = 7;
  review_id = "r7";
  clause_id = 3;
  compiled_rule_id = some 1;
  severity = blocking;
  status = pending;
  compliance_officer_id = none;
  resolution_notes = none;
  resolved_at = none;
  approved_rule_version = none;
  approved_policy_sha256 = none;
}

abbrev own_rule : CompiledRule
own_rule = record {
  id = 1;
  tenant_id = "broker-1";
  rule_id = "margin";
  rule_version = 2;
  rego_policy = some "package margin";
  is_compiled = true;
  is_active = false;
  hitl_status = hitl_blocking;
  policy_sha256 = none;
}

abbrev others_rule : CompiledRule
others_rule = record own_rule {
  id = 2;
  tenant_id = "broker-2";
  is_active = true;
  hitl_status = hitl_resolved;
}

abbrev waiting : Circular
waiting = record { id = 4; processing_state = awaiting_hitl; error_message = none }

abbrev tables : Db
tables = record {
  reviews = open_review ∷ [];
  rules = own_rule ∷ others_rule ∷ [];
  clauses = record { id = 3; circular_id = 4 } ∷ [];
  circulars = waiting ∷ [];
  transitions = [];
}

tables-pending : get_pending_review "r7" tables ≡ ok open_review
unfolding get_pending_review get_review_or_404
tables-pending = refl

tables-waiting : circular_of open_review tables ≡ some waiting
unfolding circular_of
tables-waiting = refl

tables-IsGated : IsGated tables
unfolding reviews_of
tables-IsGated = refl

tables-some_clause : is_empty (clause_ids 4 tables) ≡ false
unfolding clause_ids
tables-some_clause = refl

gate_exact_example :
    ((evaluate_rule_hitl_gate (open_review ∷ [])).can_activate ≡ false)
    × ((evaluate_rule_hitl_gate (open_review ∷ [])).target_status ≡ hitl_blocking)
gate_exact_example = gate_exact (open_review ∷ [])

approve_review_exact_example :
    (a : Approval) × (db : Db) × (approve_review no_hash officer "r7" true tables ≡ ok (a, db))
    × (a.rule_activated ≡ all_approved (reviews_of 1 db.reviews))
    × ((if a.rule_activated then only_active own_rule db.rules else never_active 1 db.rules) ≡ true)
approve_review_exact_example =
    approve_review_exact no_hash officer "r7" true tables tables-pending refl refl

request_revision_exact_example :
    ((request_revision officer "r7" tables ≡ err name_error) × Stalls open_review tables)
    ⊎ ((r : HitlReview) × (db : Db) × (request_revision officer "r7" tables ≡ ok (r, db))
        × (¬ (Stalls open_review tables))
        × (r.status ≡ revision_required)
        × (r.compiled_rule_id ≡ none)
        × IsRefused (some 1) tables.rules db.rules
        × (db.circulars ≡ tables.circulars)
        × (db.transitions ≡ tables.transitions))
request_revision_exact_example = request_revision_exact officer "r7" tables tables-pending

request_revision-raises : request_revision officer "r7" tables ≡ err name_error
unfolding request_revision get_pending_review get_review_or_404 reaches_missing_name circular_of
request_revision-raises = refl

reject_review_effect_example :
    (r : HitlReview) × (db : Db) × (reject_review officer "r7" tables ≡ ok (r, db))
    × (never_active 1 db.rules ≡ true)
    × ((x : Circular) × (find_row (λ x. x.id == 4) db.circulars ≡ some x)
        × (is_failed x.processing_state ≡ true))
reject_review_effect_example =
    reject_review_effect officer "r7" tables tables-pending refl tables-waiting

abbrev resolved_review : HitlReview
resolved_review = record open_review { status = resolved; resolved_at = some 5 }

resolved_review-waiting : circular_of resolved_review tables ≡ some waiting
unfolding circular_of
resolved_review-waiting = refl

approve_circular_exact_example :
    IsMoved
      (moves_on resolved_review waiting tables)
      "officer-1"
      resolved_review
      waiting
      tables
      (approve_circular "officer-1" resolved_review tables)
approve_circular_exact_example =
    approve_circular_exact "officer-1" resolved_review tables refl resolved_review-waiting

after_approval :
    (a : Approval) × (db : Db) × (approve_review no_hash officer "r7" true tables ≡ ok (a, db))
after_approval =
    let (a, db, run, activated, active) =
      approve_review_exact no_hash officer "r7" true tables tables-pending refl refl in
    (a, db, run)

Reaches-IsGated_example : IsGated after_approval.1
Reaches-IsGated_example =
    Reaches-IsGated no_hash
      (next "r7" start (approves officer true after_approval.0 after_approval.2)) tables-IsGated

Decides-final_example :
    (approve_review no_hash officer "r7" true after_approval.1 ≡ err already_resolved)
    × (reject_review officer "r7" after_approval.1 ≡ err already_resolved)
    × (request_revision officer "r7" after_approval.1 ≡ err already_resolved)
Decides-final_example =
    Decides-final no_hash "r7" officer true
      (approves officer true after_approval.0 after_approval.2) start
