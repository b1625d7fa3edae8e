-- ===== src/Hitl/Refusal.antt =====
-- app/services/hitl_service.py: the two operations that refuse a rule, `reject_review` and
-- `request_revision`. Calls run alone, as in the approval.
use reg_engine_ai.Base.{
  String, Bool, true, false, none, some, List, Result, ok, err, ◌>>=◌, update_row, update_where,
  if◌then◌else◌,
}
use reg_engine_ai.Hitl.Models.{
  rejected, revision_required, hitl_blocking, ProcessingState, awaiting_hitl, approved, failed,
  HitlReview, CompiledRule, Db,
}
use reg_engine_ai.Hitl.Service.{
  ServiceError, name_error, get_pending_review, has_review_id, is_rule, settle, circular_of,
  move_circular, Officer,
}

unfoldable pub refuse_rule : CompiledRule → CompiledRule
refuse_rule r = record r { is_active = false; hitl_status = hitl_blocking }

unfoldable pub refuse_stale_rule : CompiledRule → CompiledRule
refuse_stale_rule r = record r {
  is_active = false;
  hitl_status = hitl_blocking;
  is_compiled = false;
}

-- No row changes when the review has no rule or the rule has no row.
unfoldable pub change_rule_of :
    (CompiledRule → CompiledRule) → HitlReview → List CompiledRule → List CompiledRule
change_rule_of f review rules = elim review.compiled_rule_id [
  | none ↦ rules
  | some rule_pk ↦ update_where (is_rule rule_pk) f rules
]

abbrev pub is_failed : ProcessingState → Bool
is_failed failed = true
is_failed _ = false

-- `processing_state in ("AWAITING_HITL", "APPROVED")`
abbrev pub is_revisable : ProcessingState → Bool
is_revisable awaiting_hitl = true
is_revisable approved = true
is_revisable _ = false

unfoldable pub fail_circular : String → HitlReview → Db → Db
unfolding move_circular
fail_circular subject review db = elim (circular_of review db) [
  | none ↦ db
  | some c ↦
      if is_failed c.processing_state
      then db
      else move_circular c failed subject review.review_id
          (some (record { review_id = review.review_id; rejected_by = subject })) db
]

-- Whether the name `ClauseProcessingState`, which the module does not import, is reached.
unfoldable pub reaches_missing_name : HitlReview → Db → Bool
reaches_missing_name review db = elim (circular_of review db) [
  | none ↦ false
  | some c ↦ is_revisable c.processing_state
]

module _ (o : Officer) (review_id : String) where
  unfoldable pub reject_review : Db → Result ServiceError (HitlReview × Db)
  unfolding change_rule_of refuse_rule settle fail_circular
  reject_review db = get_pending_review review_id db >>= λ review.
      let r : HitlReview = settle rejected o.principal_subject o.notes o.now review in
      ok (
        r,
        fail_circular o.principal_subject r (record db {
          reviews = update_row (has_review_id review_id) (λ x. r) db.reviews;
          rules = change_rule_of refuse_rule review db.rules;
        }),
      )

  -- The review is detached from its rule. What is left of the transaction when it raises is rolled
  -- back, so an error carries no database.
  unfoldable pub request_revision : Db → Result ServiceError (HitlReview × Db)
  unfolding change_rule_of refuse_stale_rule settle reaches_missing_name
  request_revision db = get_pending_review review_id db >>= λ review.
      let r : HitlReview =
        record (settle revision_required o.principal_subject o.notes o.now review) {
          compiled_rule_id = none;
        } in
      let db' : Db = record db {
        reviews = update_row (has_review_id review_id) (λ x. r) db.reviews;
        rules = change_rule_of refuse_stale_rule review db.rules;
      } in
      if reaches_missing_name r db then err name_error else ok (r, db')
