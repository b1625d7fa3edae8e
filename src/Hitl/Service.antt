-- ===== src/Hitl/Service.antt =====
-- app/services/hitl_service.py: the approval, the rejection and the revision of a review. A call runs
-- alone, as the lock of the rule and the row locks see to, so the two reads of the review agree. The
-- clock gives `now`; `sha256` hashes a policy. The case law index, after the commit, is left out.
use reg_engine_ai.Base.{
  ℕ, String, Bool, true, false, not, ◌&&◌, ◌||◌, Option, none, some, List, [], ◌∷◌, ◌++◌, map,
  Result, ok, err, ◌>>=◌, ◌==◌, str_eq, any_of, keep_if, is_empty, find_row, update_row,
  update_where, if◌then◌else◌,
}
use reg_engine_ai.Hitl.Models.{
  ReviewStatus, pending, resolved, RuleHitlStatus, hitl_resolved, ProcessingState, awaiting_hitl,
  approved, HitlReview, CompiledRule, Rejection, Circular, Db,
}
use reg_engine_ai.Hitl.Gate.{
  Verdict, is_approved, is_unresolved, is_disqualifying, evaluate_rule_hitl_gate,
}

-- 404, 409, 404 for the rule, and the `NameError` of `request_revision`
pub data ServiceError : Type 0 where
  no_such_review already_resolved rule_gone name_error : ServiceError

abbrev pub is_review_pending : ReviewStatus → Bool
is_review_pending pending = true
is_review_pending _ = false

abbrev pub has_review_id : String → HitlReview → Bool
has_review_id review_id r = str_eq r.review_id review_id

abbrev review_or_404 : Option HitlReview → Result ServiceError HitlReview
review_or_404 none = err no_such_review
review_or_404 (some r) = ok r

unfoldable pub get_review_or_404 : String → Db → Result ServiceError HitlReview
get_review_or_404 review_id db = review_or_404 (find_row (has_review_id review_id) db.reviews)

-- the first steps of all three operations
unfoldable pub get_pending_review : String → Db → Result ServiceError HitlReview
unfolding get_review_or_404
get_pending_review review_id db = get_review_or_404 review_id db >>= λ r.
    if is_review_pending r.status then ok r else err already_resolved

abbrev pub is_attached : ℕ → HitlReview → Bool
is_attached rule_pk r = elim r.compiled_rule_id [ none ↦ false | some k ↦ k == rule_pk ]

unfoldable pub reviews_of : ℕ → List HitlReview → List HitlReview
reviews_of rule_pk = keep_if (is_attached rule_pk)

abbrev pub is_rule : ℕ → CompiledRule → Bool
is_rule rule_pk r = r.id == rule_pk

-- the truth value of an optional text
abbrev pub has_text : Option String → Bool
has_text none = false
has_text (some s) = not (str_eq s "")

-- the hash of the rule, computed when it has none and has a policy
unfoldable pub policy_hash : (String → String) → CompiledRule → Option String
policy_hash sha256 rule =
    if has_text rule.policy_sha256
    then rule.policy_sha256
    else if has_text rule.rego_policy
    then elim rule.rego_policy [ none ↦ rule.policy_sha256 | some rego ↦ some (sha256 rego) ]
    else rule.policy_sha256

-- the columns that every operation sets on its review
unfoldable pub settle : ReviewStatus → String → Option String → ℕ → HitlReview → HitlReview
settle status subject notes now r = record r {
  status = status;
  compliance_officer_id = some subject;
  resolution_notes = notes;
  resolved_at = some now;
}

unfoldable pub activate : Option String → CompiledRule → CompiledRule
activate hash r = record r { policy_sha256 = hash; is_active = true; hitl_status = hitl_resolved }

unfoldable pub deactivate : CompiledRule → CompiledRule
deactivate r = record r { is_active = false }

unfoldable pub hold : Option String → RuleHitlStatus → CompiledRule → CompiledRule
hold hash target r = record r { policy_sha256 = hash; is_active = false; hitl_status = target }

-- The rules after an approval whose gate gives the verdict: every other row with the same rule id is
-- deactivated, and this one is activated; or this one is held back.
unfoldable pub apply_verdict :
    Option String → CompiledRule → Verdict → List CompiledRule → List CompiledRule
unfolding activate deactivate hold
apply_verdict hash rule v rules =
    if v.can_activate
    then update_where (is_rule rule.id) (activate hash) (
        update_where (λ r. str_eq r.rule_id rule.rule_id && not (r.id == rule.id)) deactivate rules)
    else update_where (is_rule rule.id) (hold hash v.target_status) rules

abbrev pub is_awaiting : ProcessingState → Bool
is_awaiting awaiting_hitl = true
is_awaiting _ = false

-- The circular of a review: its clause's, when both rows exist.
unfoldable pub circular_of : HitlReview → Db → Option Circular
circular_of review db =
    if review.clause_id == 0
    then none
    else elim (find_row (λ c. c.id == review.clause_id) db.clauses) [
      | none ↦ none
      | some clause ↦
          if clause.circular_id == 0
          then none
          else find_row (λ c. c.id == clause.circular_id) db.circulars
    ]

-- the ids of the clauses of a circular, and the reviews of those clauses
unfoldable pub clause_ids : ℕ → Db → List ℕ
clause_ids circular_pk db = map (λ c. c.id) (keep_if (λ c. c.circular_id == circular_pk) db.clauses)

unfoldable pub reviews_under : List ℕ → List HitlReview → List HitlReview
reviews_under ids = keep_if (λ r. any_of (λ k. k == r.clause_id) ids)

-- `unresolved` or `disqualified`, for the review that was just settled
abbrev pub holds_circular : HitlReview → HitlReview → Bool
holds_circular review r =
    (r.id == review.id && not (is_approved review.status))
    || (not (r.id == review.id) && is_unresolved r.status)
    || is_disqualifying r.status

unfoldable pub move_circular :
    Circular → ProcessingState → String → String → Option Rejection → Db → Db
move_circular c to subject review_id error db = record db {
  circulars =
      update_where (λ x. x.id == c.id)
        (λ x. record x {
          processing_state = to;
          error_message = elim error [ none ↦ x.error_message | some e ↦ some e ];
        })
        db.circulars;
  transitions =
      db.transitions
      ++ record {
        circular_id = c.id;
        from_state = c.processing_state;
        to_state = to;
        triggered_by = subject;
        error_message = error;
        review_id = review_id;
      }
        ∷ [];
}

-- An approval moves the circular on when it holds up none of the circular's reviews.
unfoldable pub approve_circular : String → HitlReview → Db → Db
unfolding move_circular clause_ids reviews_under
approve_circular subject review db = elim (circular_of review db) [
  | none ↦ db
  | some c ↦
      let ids : List ℕ = clause_ids c.id db in
      if is_awaiting c.processing_state
        && not (is_empty ids)
        && not (any_of (holds_circular review) (reviews_under ids db.reviews))
      then move_circular c approved subject review.review_id none db
      else db
]

pub record Approval : Type 0 where
  pub review : HitlReview
  pub rule_activated : Bool
  pub compiled_rule : Option CompiledRule
  pub published : Bool

pub record Officer : Type 0 where
  pub principal_subject : String
  pub notes : Option String
  pub now : ℕ

module _ (sha256 : String → String) (o : Officer) (review_id : String) where
  abbrev pub settled : ReviewStatus → HitlReview → HitlReview
  settled status r = settle status o.principal_subject o.notes o.now r

  abbrev pub replace_review : HitlReview → Db → Db
  replace_review r db = record db {
    reviews = update_row (has_review_id review_id) (λ x. r) db.reviews;
  }

  -- no rule is attached
  unfoldable pub approve_alone : HitlReview → Db → Approval × Db
  unfolding approve_circular
  approve_alone review db =
      let r = settled resolved review in
      (
        record { review = r; rule_activated = false; compiled_rule = none; published = false },
        approve_circular o.principal_subject r (replace_review r db),
      )

  unfoldable pub approved_review : CompiledRule → HitlReview → HitlReview
  unfolding settle
  approved_review rule review = record (settled resolved review) {
    approved_rule_version = some rule.rule_version;
    approved_policy_sha256 = policy_hash sha256 rule;
  }

  -- `publishes` says whether a publisher is at hand.
  unfoldable pub approve_with :
      Bool → HitlReview → Db → Option CompiledRule → Result ServiceError (Approval × Db)
  unfolding approved_review apply_verdict approve_circular
  approve_with publishes review db none = err rule_gone
  approve_with publishes review db (some rule) =
      let hash : Option String = policy_hash sha256 rule in
      let r : HitlReview = approved_review rule review in
      let db' : Db = replace_review r db in
      let v : Verdict = evaluate_rule_hitl_gate (reviews_of rule.id db'.reviews) in
      let rules' : List CompiledRule = apply_verdict hash rule v db'.rules in
      ok (
        record {
          review = r;
          rule_activated = v.can_activate;
          compiled_rule = find_row (is_rule rule.id) rules';
          published = v.can_activate && has_text rule.rego_policy && publishes;
        },
        approve_circular o.principal_subject r (record db' { rules = rules' }),
      )

  unfoldable pub approve_review : Bool → Db → Result ServiceError (Approval × Db)
  unfolding approve_with approve_alone
  approve_review publishes db = get_pending_review review_id db >>= λ review.
      elim review.compiled_rule_id [
        | none ↦ ok (approve_alone review db)
        | some rule_pk ↦ approve_with publishes review db (find_row (is_rule rule_pk) db.rules)
      ]
