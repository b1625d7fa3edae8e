-- ===== src/Hitl/Circulars.antt =====
-- When an approval moves a circular on.
use reg_engine_ai.Base.{
  String, ◌≡◌, refl, ap, Bool, true, false, not, ◌&&◌, none, some, List, [], ◌∷◌, ◌++◌, find_row,
  Bool-cases, inl, inr, arith, ◌==◌, all_of, any_of, is_empty, if◌then◌else◌,
}
use reg_engine_ai.Hitl.Models.{approved, awaiting_hitl, ProcessingState, HitlReview, Circular, Db}
use reg_engine_ai.Hitl.Gate.{is_approved, is_disqualifying}
use reg_engine_ai.Hitl.Service.{
  circular_of, clause_ids, reviews_under, holds_circular, move_circular, approve_circular,
}
use reg_engine_ai.Hitl.Effects.{circular_of-found, find-update_where}

-- A review that does not hold the circular up: resolved, or the row under approval.
abbrev pub is_cleared : HitlReview → HitlReview → Bool
is_cleared review r =
    if r.id == review.id then not (is_disqualifying r.status) else is_approved r.status

holds_circular-is_cleared :
    (review : HitlReview) (rs : List HitlReview)
    → is_approved review.status ≡ true
    → any_of (holds_circular review) rs ≡ not (all_of (is_cleared review) rs)
holds_circular-is_cleared review [] h = refl
holds_circular-is_cleared review (r ∷ rs) h =
    ground (arith, h, holds_circular-is_cleared review rs h)

abbrev pub awaits_review : ProcessingState → Bool
awaits_review awaiting_hitl = true
awaits_review _ = false

-- The circular awaits review, has a clause, and no review of its clauses holds it up.
abbrev pub moves_on : HitlReview → Circular → Db → Bool
moves_on review c db =
    awaits_review c.processing_state
    && not (is_empty (clause_ids c.id db))
    && all_of (is_cleared review) (reviews_under (clause_ids c.id db) db.reviews)

approve_circular_run :
    (subject : String) (review : HitlReview) (db : Db) {c : Circular}
    → is_approved review.status ≡ true
    → circular_of review db ≡ some c
    → approve_circular subject review db ≡ (
        if moves_on review c db
        then move_circular c approved subject review.review_id none db
        else db)
unfolding approve_circular
approve_circular_run subject review db {c} h belongs = ground (
  arith,
  belongs,
  holds_circular-is_cleared review (reviews_under (clause_ids c.id db) db.reviews) h,
)

-- The row of a circular and the log of transitions, once it is approved or not.
abbrev pub IsMoved : Bool → String → HitlReview → Circular → Db → Db → Type 0
IsMoved moved subject review c db db' =
    ((x : Circular) × (find_row (λ x. x.id == c.id) db'.circulars ≡ some x)
      × (x.processing_state ≡ (if moved then approved else c.processing_state)))
    × (db'.transitions
        ≡ db.transitions
          ++ (if moved
              then record {
                circular_id = c.id;
                from_state = c.processing_state;
                to_state = approved;
                triggered_by = subject;
                error_message = none;
                review_id = review.review_id;
              }
                ∷ []
              else []))

move_circular-IsMoved :
    (subject : String) (review : HitlReview) (db : Db) {c : Circular}
    → find_row (λ x. x.id == c.id) db.circulars ≡ some c
    → IsMoved true subject review c db (move_circular c approved subject review.review_id none db)
unfolding move_circular
move_circular-IsMoved subject review db {c} found = (
  (
    record c { processing_state = approved },
    find-update_where (λ x. record x { processing_state = approved }) c.id db.circulars (λ x. refl)
        found,
    refl,
  ),
  refl,
)

append-nil : {A : Type 0} (xs : List A) → xs ≡ xs ++ []
append-nil [] = refl
append-nil (x ∷ xs) = ap (λ t. x ∷ t) (append-nil xs)

-- A resolved review moves its circular to approved exactly when the circular awaits review, has a
-- clause, every other review of its clauses is resolved, and its own row is not refused; then one
-- transition from the state before is logged, by the officer and under the review. Else the
-- circular keeps its state and nothing is logged.
pub approve_circular_exact :
    (subject : String) (review : HitlReview) (db : Db) {c : Circular}
    → is_approved review.status ≡ true
    → circular_of review db ≡ some c
    → IsMoved (moves_on review c db) subject review c db (approve_circular subject review db)
approve_circular_exact subject review db {c} h belongs =
    let found = circular_of-found review db belongs in
    elim (Bool-cases (moves_on review c db)) [
      | inl on ↦
          rw (approve_circular_run subject review db h belongs, on)
            (move_circular-IsMoved subject review db found)
      | inr off ↦
          rw (approve_circular_run subject review db h belongs, off)
            ((c, found, refl), append-nil db.transitions)
    ]
