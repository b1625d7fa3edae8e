-- ===== src/Hitl/Reachable.antt =====
-- The operations of the service as steps of the database.
use reg_engine_ai.Base.{
  ℕ, String, ◌≡◌, refl, sym, ap, ◌∙◌, subst, inl, inr, Bool, true, false, not, ◌||◌, Option, none,
  some, List, arith, ok, ok-injective, bind_value, ==_iff, all_of, find_row, update_row,
  Option-cases, Bool-cases,
}
use reg_engine_ai.Hitl.Models.{HitlReview, CompiledRule, Db, resolved, rejected, revision_required}
use reg_engine_ai.Hitl.Gate.{is_approved, evaluate_rule_hitl_gate}
use reg_engine_ai.Hitl.GateLaws.{gate_exact}
use reg_engine_ai.Hitl.Service.{
  get_pending_review, has_review_id, is_attached, reviews_of, is_rule, settle, policy_hash, hold,
  apply_verdict, move_circular, approve_circular, Approval, Officer, approve_alone, approve_with,
  approved_review, approve_review,
}
use reg_engine_ai.Hitl.Refusal.{
  refuse_rule, refuse_stale_rule, change_rule_of, fail_circular, reject_review, request_revision,
  reaches_missing_name,
}
use reg_engine_ai.Hitl.Gating.{gated, IsGated, unchanged-gated, held-gated, activated-gated}

-- A change of a circular leaves the reviews and the rules alone.
abbrev pub SameRules : Db → Db → Type 0
SameRules db db' = (db'.reviews ≡ db.reviews) × (db'.rules ≡ db.rules)

pub approve_circular-SameRules :
    (s : String) (r : HitlReview) (db : Db) → SameRules db (approve_circular s r db)
unfolding approve_circular move_circular
approve_circular-SameRules s r db = ground arith

pub fail_circular-SameRules :
    (s : String) (r : HitlReview) (db : Db) → SameRules db (fail_circular s r db)
unfolding fail_circular move_circular
fail_circular-SameRules s r db = ground arith

approve_circular-IsGated :
    (s : String) (r : HitlReview) (db : Db) → IsGated db → IsGated (approve_circular s r db)
approve_circular-IsGated s r db g = let h = approve_circular-SameRules s r db in rw (h.0, h.1) g

fail_circular-IsGated :
    (s : String) (r : HitlReview) (db : Db) → IsGated db → IsGated (fail_circular s r db)
fail_circular-IsGated s r db g = let h = fail_circular-SameRules s r db in rw (h.0, h.1) g

module _ (sha256 : String → String) (o : Officer) (review_id : String) where
  approve_alone-IsGated :
      (review : HitlReview) (db : Db)
      → IsGated db
      → IsGated (approve_alone sha256 o review_id review db).1
  unfolding approve_alone settle
  approve_alone-IsGated review db g =
      let p = has_review_id review_id in
      let r = settle resolved o.principal_subject o.notes o.now review in
      let db' = record db { reviews = update_row p (λ x. r) db.reviews } in
      approve_circular-IsGated o.principal_subject r db'
        (unchanged-gated p r db.reviews db.rules (λ k. ground arith) g)

  apply_verdict-gated :
      (hash : Option String) (rule : CompiledRule) (r : HitlReview) (rs : List HitlReview)
      (rules : List CompiledRule)
      → is_approved r.status ≡ true
      → all_of (gated rs) rules ≡ true
      → let rs' = update_row (has_review_id review_id) (λ x. r) rs in
        all_of
          (gated rs')
          (apply_verdict hash rule (evaluate_rule_hitl_gate (reviews_of rule.id rs')) rules)
        ≡ true
  unfolding apply_verdict hold
  apply_verdict-gated hash rule r rs rules a g =
      let p = has_review_id review_id in
      let rs' = update_row p (λ x. r) rs in
      let v = evaluate_rule_hitl_gate (reviews_of rule.id rs') in
      elim (Bool-cases v.can_activate) [
        | inl passes ↦ rw passes (
            activated-gated p r rs hash rule rules
              (sym (gate_exact (reviews_of rule.id rs')).0 ∙ passes) (λ k. ground arith) g)
        | inr stops ↦ rw stops (
            held-gated p r rs rule.id (hold hash v.target_status) rules (λ x. refl)
              (λ j. ground arith) g)
      ]

  approve_with-IsGated :
      (publishes : Bool) (review : HitlReview) (db : Db) (found : Option CompiledRule)
      {a : Approval} {db' : Db}
      → approve_with sha256 o review_id publishes review db found ≡ ok (a, db')
      → IsGated db
      → IsGated db'
  unfolding approve_with approved_review settle
  approve_with-IsGated publishes review db none e g = absurd (cc)
  approve_with-IsGated publishes review db (some rule) e g =
      let hash = policy_hash sha256 rule in
      let r = approved_review sha256 o review_id rule review in
      let rs' = update_row (has_review_id review_id) (λ x. r) db.reviews in
      let v = evaluate_rule_hitl_gate (reviews_of rule.id rs') in
      let rules' = apply_verdict hash rule v db.rules in
      let db' = record db { reviews = rs'; rules = rules' } in
      subst IsGated (ap (λ x. x.1) (ok-injective e)) (
        approve_circular-IsGated o.principal_subject r db'
          (apply_verdict-gated hash rule r db.reviews db.rules refl g))

  pub approve_review-IsGated :
      (publishes : Bool) (db : Db) {a : Approval} {db' : Db}
      → approve_review sha256 o review_id publishes db ≡ ok (a, db')
      → IsGated db
      → IsGated db'
  unfolding approve_review
  approve_review-IsGated publishes db e g =
      let (review, read, rest) = bind_value (get_pending_review review_id db) _ e in
      elim (Option-cases review.compiled_rule_id) [
        | inl alone ↦
            subst IsGated (ap (λ x. x.1) (ok-injective (rw alone at rest)))
              (approve_alone-IsGated review db g)
        | inr (k, attached) ↦
            approve_with-IsGated publishes review db (find_row (is_rule k) db.rules)
              (rw attached at rest) g
      ]

  refuse-IsGated :
      (f : CompiledRule → CompiledRule) (review r : HitlReview) (db : Db)
      → ((x : CompiledRule) → (f x).is_active ≡ false)
      → ((k : ℕ) → (not (is_attached k r) || is_attached k review) ≡ true)
      → IsGated db
      → IsGated (record db {
        reviews = update_row (has_review_id review_id) (λ x. r) db.reviews;
        rules = change_rule_of f review db.rules;
      })
  unfolding change_rule_of
  refuse-IsGated f review r db off same g = elim (Option-cases review.compiled_rule_id) [
    | inl alone ↦ rw alone (
        unchanged-gated (has_review_id review_id) r db.reviews db.rules
          (λ k. ground (arith, same k, alone)) g)
    | inr (pk, attached) ↦ rw attached (
        held-gated (has_review_id review_id) r db.reviews pk f db.rules off
          (λ j. ground (arith, same j, attached, ==_iff pk j)) g)
  ]

  pub reject_review-IsGated :
      (db : Db) {r : HitlReview} {db' : Db}
      → reject_review o review_id db ≡ ok (r, db')
      → IsGated db
      → IsGated db'
  unfolding reject_review refuse_rule settle
  reject_review-IsGated db e g =
      let (review, read, rest) = bind_value (get_pending_review review_id db) _ e in
      let r = settle rejected o.principal_subject o.notes o.now review in
      subst IsGated (ap (λ x. x.1) (ok-injective rest)) (
        fail_circular-IsGated o.principal_subject r _
          (refuse-IsGated refuse_rule review r db (λ x. refl) (λ k. ground arith) g))

  pub request_revision-IsGated :
      (db : Db) {r : HitlReview} {db' : Db}
      → request_revision o review_id db ≡ ok (r, db')
      → IsGated db
      → IsGated db'
  unfolding request_revision refuse_stale_rule settle
  request_revision-IsGated db e g =
      let (review, read, rest) = bind_value (get_pending_review review_id db) _ e in
      let r : HitlReview =
        record (settle revision_required o.principal_subject o.notes o.now review) {
          compiled_rule_id = none;
        } in
      elim (Bool-cases (reaches_missing_name r db)) [
        | inl raises ↦ absurd (ground (arith, rest, raises))
        | inr passes ↦
            subst IsGated (ap (λ x. x.1) (ok-injective (rw passes at rest)))
              (refuse-IsGated refuse_stale_rule review r db (λ x. refl) (λ k. ground arith) g)
      ]
