-- ===== src/Hitl/Steps.antt =====
-- Any sequence of officers' decisions: the steps of the service and what they reach.
use reg_engine_ai.Base.{
  String, inl, inr, ◌≡◌, refl, sym, ap, ◌∙◌, subst, Bool, true, false, Option, none, some, List, [],
  ◌∷◌, arith, ok, err, ok-injective, bind_value, str_eq, find_row, update_row, Option-cases,
  Bool-cases, eq_iff,
}
use reg_engine_ai.Hitl.Models.{HitlReview, CompiledRule, Db, resolved, rejected, revision_required}
use reg_engine_ai.Hitl.Service.{
  already_resolved, get_review_or_404, get_pending_review, has_review_id, is_rule, settle, Approval,
  Officer, approve_alone, approve_with, approved_review, approve_review, is_review_pending,
}
use reg_engine_ai.Hitl.Refusal.{reject_review, request_revision}
use reg_engine_ai.Hitl.Gating.{IsGated}
use reg_engine_ai.Hitl.Reachable.{
  approve_circular-SameRules, fail_circular-SameRules, approve_review-IsGated,
  reject_review-IsGated, request_revision-IsGated,
}

-- A call on one review that returns.
pub data Decides (sha256 : String → String) (review_id : String) (db db' : Db) : Type 0 where
  approves :
      (o : Officer) (publishes : Bool) (a : Approval)
      → approve_review sha256 o review_id publishes db ≡ ok (a, db')
      → Decides sha256 review_id db db'
  rejects :
      (o : Officer) (r : HitlReview)
      → reject_review o review_id db ≡ ok (r, db')
      → Decides sha256 review_id db db'
  revises :
      (o : Officer) (r : HitlReview)
      → request_revision o review_id db ≡ ok (r, db')
      → Decides sha256 review_id db db'

pub data Reaches (sha256 : String → String) (db : Db) : Db → Type 0 where
  start : Reaches sha256 db db
  next :
      {db₁ db₂ : Db} (review_id : String)
      → Reaches sha256 db db₁
      → Decides sha256 review_id db₁ db₂
      → Reaches sha256 db db₂

module _ (sha256 : String → String) where
  Decides-IsGated :
      (review_id : String) {db db' : Db}
      → Decides sha256 review_id db db'
      → IsGated db
      → IsGated db'
  Decides-IsGated review_id {db} (approves o publishes a e) g =
      approve_review-IsGated sha256 o review_id publishes db e g
  Decides-IsGated review_id {db} (rejects o r e) g = reject_review-IsGated sha256 o review_id db e g
  Decides-IsGated review_id {db} (revises o r e) g =
      request_revision-IsGated sha256 o review_id db e g

  -- If every active rule has only resolved reviews, this is so after any sequence of approvals,
  -- rejections and revisions by any officers.
  pub Reaches-IsGated : {db db' : Db} → Reaches sha256 db db' → IsGated db → IsGated db'
  Reaches-IsGated start g = g
  Reaches-IsGated (next review_id before d) g =
      Decides-IsGated review_id d (Reaches-IsGated before g)

-- The review that was changed is the one that is found.
find-update_row :
    (p : HitlReview → Bool) (r' : HitlReview) (rs : List HitlReview) {r : HitlReview}
    → find_row p rs ≡ some r
    → p r' ≡ true
    → find_row p (update_row p (λ x. r') rs) ≡ some r'
find-update_row p r' [] e h = absurd (cc)
find-update_row p r' (x ∷ rs) {r} e h = ground (arith, find-update_row p r' rs {r = r})

-- The change of a review leaves the search for another one as it was.
find-update_other :
    (k j : String) (r' : HitlReview) (rs : List HitlReview)
    → str_eq k j ≡ false
    → str_eq r'.review_id j ≡ true
    → find_row (has_review_id k) (update_row (has_review_id j) (λ x. r') rs)
      ≡ find_row (has_review_id k) rs
find-update_other k j r' [] other named = refl
find-update_other k j r' (x ∷ rs) other named = ground (
  arith,
  find-update_other k j r' rs other named,
  eq_iff r'.review_id j,
  eq_iff x.review_id j,
  eq_iff x.review_id k,
  eq_iff r'.review_id k,
  eq_iff k j,
)

-- A read of a pending review gives the row that the key finds.
pending_found :
    (review_id : String) (db : Db) {r : HitlReview}
    → get_pending_review review_id db ≡ ok r
    → (find_row (has_review_id review_id) db.reviews ≡ some r) × (is_review_pending r.status ≡ true)
unfolding get_pending_review get_review_or_404
pending_found review_id db e = ground arith

found-has_review_id :
    (review_id : String) (rs : List HitlReview) {r : HitlReview}
    → find_row (has_review_id review_id) rs ≡ some r
    → str_eq r.review_id review_id ≡ true
found-has_review_id review_id [] e = absurd (cc)
found-has_review_id review_id (x ∷ rs) {r} e =
    ground (arith, found-has_review_id review_id rs {r = r})

-- A review that is replaced by one that is not pending can be decided no more.
replaced-decided :
    (review_id : String) (db db' : Db) (review r : HitlReview)
    → get_pending_review review_id db ≡ ok review
    → db'.reviews ≡ update_row (has_review_id review_id) (λ x. r) db.reviews
    → r.review_id ≡ review.review_id
    → is_review_pending r.status ≡ false
    → get_pending_review review_id db' ≡ err already_resolved
unfolding get_pending_review get_review_or_404
replaced-decided review_id db db' review r e same key final =
    let found = (pending_found review_id db e).0 in
    let named = found-has_review_id review_id db.reviews found in
    let after = find-update_row (has_review_id review_id) r db.reviews found (rw key named) in
    rw (same, after, final) refl

-- What a decision does to the review that it is about, and to no other.
abbrev ReplacesReview : String → HitlReview → HitlReview → Db → Db → Type 0
ReplacesReview review_id review r db db' =
    (db'.reviews ≡ update_row (has_review_id review_id) (λ x. r) db.reviews)
    × (r.review_id ≡ review.review_id)
    × (is_review_pending r.status ≡ false)

module _ (sha256 : String → String) where
  approve_alone-ReplacesReview :
      (o : Officer) (review_id : String) (review : HitlReview) (db : Db)
      → let (a, db') = approve_alone sha256 o review_id review db in
        ReplacesReview review_id review a.review db db'
  unfolding approve_alone settle
  approve_alone-ReplacesReview o review_id review db =
      let r = settle resolved o.principal_subject o.notes o.now review in
      (
        (approve_circular-SameRules o.principal_subject r
            (record db { reviews = update_row (has_review_id review_id) (λ x. r) db.reviews })).0,
        refl,
        refl,
      )

  approve_with-ReplacesReview :
      (o : Officer) (review_id : String) (publishes : Bool) (review : HitlReview) (db : Db)
      (found : Option CompiledRule) {a : Approval} {db' : Db}
      → approve_with sha256 o review_id publishes review db found ≡ ok (a, db')
      → ReplacesReview review_id review a.review db db'
  unfolding approve_with approved_review settle
  approve_with-ReplacesReview o review_id publishes review db none e = absurd (cc)
  approve_with-ReplacesReview o review_id publishes review db (some rule) e =
      subst (λ (x : Approval × Db). ReplacesReview review_id review x.0.review db x.1)
        (ok-injective e) ((approve_circular-SameRules o.principal_subject _ _).0, refl, refl)

  approve_review-ReplacesReview :
      (o : Officer) (review_id : String) (publishes : Bool) (review : HitlReview) (db : Db)
      {a : Approval} {db' : Db}
      → get_pending_review review_id db ≡ ok review
      → approve_review sha256 o review_id publishes db ≡ ok (a, db')
      → ReplacesReview review_id review a.review db db'
  unfolding approve_review
  approve_review-ReplacesReview o review_id publishes review db {a} {db'} read e =
      elim (Option-cases review.compiled_rule_id) [
        | inl alone ↦
            subst (λ (x : Approval × Db). ReplacesReview review_id review x.0.review db x.1)
              (ok-injective (rw (read, alone) at e))
              (approve_alone-ReplacesReview o review_id review db)
        | inr (k, attached) ↦
            approve_with-ReplacesReview o review_id publishes review db
              (find_row (is_rule k) db.rules) (rw (read, attached) at e)
      ]

  approval_read :
      (o : Officer) (review_id : String) (publishes : Bool) (db : Db) {a : Approval} {db' : Db}
      → approve_review sha256 o review_id publishes db ≡ ok (a, db')
      → (review : HitlReview) × (get_pending_review review_id db ≡ ok review)
  unfolding approve_review
  approval_read o review_id publishes db e =
      let (review, read, rest) = bind_value (get_pending_review review_id db) _ e in (review, read)

  -- What a decision does to the reviews: it replaces a pending one by one that is not.
  Replaced : String → Db → Db → Type 0
  Replaced review_id db db' =
      (review : HitlReview) × (r : HitlReview) × (get_pending_review review_id db ≡ ok review)
      × ReplacesReview review_id review r db db'

  Decides-Replaced :
      (review_id : String) {db db' : Db}
      → Decides sha256 review_id db db'
      → Replaced review_id db db'
  unfolding reject_review request_revision settle Replaced
  Decides-Replaced review_id {db} {db'} (approves o publishes a e) =
      let (review, read) = approval_read o review_id publishes db e in
      (review, a.review, read, approve_review-ReplacesReview o review_id publishes review db read e)
  Decides-Replaced review_id {db} {db'} (rejects o r e) =
      let (review, read, rest) = bind_value (get_pending_review review_id db) _ e in
      let r' = settle rejected o.principal_subject o.notes o.now review in
      (
        review,
        r',
        read,
        (
          sym (ap (λ x. x.1.reviews) (ok-injective rest))
              ∙ (fail_circular-SameRules o.principal_subject r' _).0,
          refl,
          refl,
        ),
      )
  Decides-Replaced review_id {db} {db'} (revises o r e) =
      let (review, read, rest) = bind_value (get_pending_review review_id db) _ e in
      let r' : HitlReview =
        record (settle revision_required o.principal_subject o.notes o.now review) {
          compiled_rule_id = none;
        } in
      (review, r', read, (ground (arith, rest), refl, refl))

  Decides-decided :
      (review_id : String) {db db' : Db}
      → Decides sha256 review_id db db'
      → get_pending_review review_id db' ≡ err already_resolved
  unfolding Replaced
  Decides-decided review_id {db} {db'} d =
      let (review, r, read, after) = Decides-Replaced review_id d in
      replaced-decided review_id db db' review r read after.0 after.1 after.2

  -- A decided review stays decided through a decision on any review.
  Decides-stays :
      (k review_id : String) {db db' : Db}
      → get_pending_review k db ≡ err already_resolved
      → Decides sha256 review_id db db'
      → get_pending_review k db' ≡ err already_resolved
  unfolding Replaced get_pending_review get_review_or_404
  Decides-stays k review_id {db} {db'} h d =
      let (review, r, read, after) = Decides-Replaced review_id d in
      let named = found-has_review_id review_id db.reviews (pending_found review_id db read).0 in
      elim (Bool-cases (str_eq k review_id)) [
        | inl same_id ↦ absurd (
            cc (
              read,
              subst (λ j. get_pending_review j db ≡ err already_resolved)
                  ((eq_iff k review_id).0 same_id) h,
            ))
        | inr other ↦
            rw (after.0, find-update_other k review_id r db.reviews other (rw after.1 named)) h
      ]

  Reaches-decided :
      (k : String) {db db' : Db}
      → get_pending_review k db ≡ err already_resolved
      → Reaches sha256 db db'
      → get_pending_review k db' ≡ err already_resolved
  Reaches-decided k h start = h
  Reaches-decided k h (next review_id before d) =
      Decides-stays k review_id (Reaches-decided k h before) d

  -- A review that was approved, rejected or sent back is decided for good: after any sequence of
  -- decisions on any reviews, whatever an officer asks of it raises.
  pub Decides-final :
      (review_id : String) {db db₁ db' : Db} (o : Officer) (publishes : Bool)
      → Decides sha256 review_id db db₁
      → Reaches sha256 db₁ db'
      → (approve_review sha256 o review_id publishes db' ≡ err already_resolved)
        × (reject_review o review_id db' ≡ err already_resolved)
        × (request_revision o review_id db' ≡ err already_resolved)
  unfolding approve_review reject_review request_revision
  Decides-final review_id o publishes d later =
      let decided = Reaches-decided review_id (Decides-decided review_id d) later in
      (rw decided refl, rw decided refl, rw decided refl)
