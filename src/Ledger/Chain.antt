-- ===== src/Ledger/Chain.antt =====
-- What an intact chain is, independently of the verifier, and the loop of the verifier against it.
use reg_engine_ai.Base.{
  ℕ, ℤ, next_ℤ, plus_ℤ, eq_of_parts, ◌≡◌, refl, ◌↔◌, List, [], ◌∷◌, ◌++◌, arith, length,
  text_eq_iff,
}
use reg_engine_ai.Ledger.Models.{Row}
use reg_engine_ai.Ledger.HashChain.{
  Primitives, compute_payload_digest, compute_block_hash, row_payload,
}
use reg_engine_ai.Ledger.Verifier.{row_breaks, walk_rows}

module _ {Details : Type 0} where
  -- the hash that the row after these has to point at
  abbrev pub head_hash : List ℕ → List (Row Details) → List ℕ
  head_hash h [] = h
  head_hash h (r ∷ rs) = head_hash r.current_hash rs

module _ {Details : Type 0} (p : Primitives Details) where
  -- A row that stands at `n` after the hash `h`, and whose own hashes are right.
  pub record Follows (h : List ℕ) (n : ℤ) (r : Row Details) : Type 0 where
    pub at_sequence : r.sequence_num ≡ n
    pub points_back : r.previous_hash ≡ h
    pub digest_right : r.payload_digest ≡ compute_payload_digest p (row_payload r)
    pub block_right :
        r.current_hash
        ≡ compute_block_hash p r.previous_hash r.payload_digest r.sequence_num r.evaluated_at

  -- The rows `n`, `n + 1`, ... with no gap, each pointing at the one before.
  abbrev pub Linked : List ℕ → ℤ → List (Row Details) → Type 0
  Linked h n [] = Unit
  Linked h n (r ∷ rs) = Follows h n r × Linked r.current_hash (next_ℤ n) rs

  append-eq-nil : {A : Type 0} (xs ys : List A) → xs ++ ys ≡ [] → (xs ≡ []) × (ys ≡ [])
  append-eq-nil [] ys e = (refl, e)
  append-eq-nil (x ∷ xs) ys e = cc

  pub row_breaks-nil :
      (h : List ℕ) (n : ℤ) (r : Row Details) → (row_breaks p h n r ≡ []) ↔ Follows h n r
  unfolding row_breaks
  row_breaks-nil h n r = (
    λ e. ground (
      arith,
      eq_of_parts r.sequence_num n,
      text_eq_iff r.previous_hash h,
      text_eq_iff (compute_payload_digest p (row_payload r)) r.payload_digest,
      text_eq_iff
          (compute_block_hash p r.previous_hash r.payload_digest r.sequence_num r.evaluated_at)
          r.current_hash,
    ),
    λ f. ground (
      arith,
      text_eq_iff r.previous_hash h,
      text_eq_iff (compute_payload_digest p (row_payload r)) r.payload_digest,
      text_eq_iff
          (compute_block_hash p r.previous_hash r.payload_digest r.sequence_num r.evaluated_at)
          r.current_hash,
    ),
  )

  pub walk_rows_sound :
      (h : List ℕ) (n : ℤ) (rs : List (Row Details)) → walk_rows p h n rs ≡ [] → Linked h n rs
  unfolding walk_rows
  walk_rows_sound h n [] e = tt
  walk_rows_sound h n (r ∷ rs) e =
      let both =
        append-eq-nil (row_breaks p h n r) (walk_rows p r.current_hash (next_ℤ r.sequence_num) rs)
          e in
      let f : Follows h n r = (row_breaks-nil h n r).0 both.0 in
      let rest : Linked r.current_hash (next_ℤ r.sequence_num) rs =
        walk_rows_sound r.current_hash (next_ℤ r.sequence_num) rs both.1 in
      (f, rw f.at_sequence at rest)

  pub walk_rows_complete :
      (h : List ℕ) (n : ℤ) (rs : List (Row Details)) → Linked h n rs → walk_rows p h n rs ≡ []
  unfolding walk_rows
  walk_rows_complete h n [] l = refl
  walk_rows_complete h n (r ∷ rs) l = rw (
    (row_breaks-nil h n r).1 l.0,
    l.0.at_sequence,
    walk_rows_complete r.current_hash (next_ℤ n) rs l.1,
  )

  -- A chain goes on by one row.
  pub Linked-append :
      (h : List ℕ) (n : ℤ) (xs : List (Row Details)) (r : Row Details)
      → Linked h n xs
      → Follows (head_hash h xs) (plus_ℤ n (length xs)) r
      → Linked h n (xs ++ r ∷ [])
  unfolding plus_ℤ
  Linked-append h n [] r l f = (f, tt)
  Linked-append h n (x ∷ xs) r l f = (l.0, Linked-append x.current_hash (next_ℤ n) xs r l.1 f)
