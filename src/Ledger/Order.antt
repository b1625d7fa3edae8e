-- ===== src/Ledger/Order.antt =====
-- The order that the queries impose.
use reg_engine_ai.Base.{
  ℕ, suc, ℤ, next_ℤ, plus_ℤ, ◌≤ℤ◌, next_parts, plus_parts, leb_ℤ, false, sym, ◌≡◌, refl, ap, subst,
  ◌∙◌, none, some, List, [], ◌∷◌, arith, length, All,
}
use reg_engine_ai.Ledger.Models.{Row}
use reg_engine_ai.Ledger.HashChain.{Primitives}
use reg_engine_ai.Ledger.Service.{last_entry, later}
use reg_engine_ai.Ledger.Verifier.{insert_row, order_by_sequence, hash_at, in_window}
use reg_engine_ai.Ledger.Chain.{Linked, head_hash}

module _ {Details : Type 0} where
  abbrev pub AtLeast : ℤ → List (Row Details) → Type 0
  AtLeast n = All (λ r. n ≤ℤ r.sequence_num)

  AtLeast-mono : (m n : ℤ) (rs : List (Row Details)) → m ≤ℤ n → AtLeast n rs → AtLeast m rs
  AtLeast-mono m n [] le a = tt
  AtLeast-mono m n (r ∷ rs) le a = (omega arith, AtLeast-mono m n rs le a.1)

  AtLeast-insert_row :
      (n : ℤ) (r : Row Details) (rs : List (Row Details))
      → (AtLeast n (insert_row r rs) → (n ≤ℤ r.sequence_num) × AtLeast n rs)
  unfolding insert_row
  AtLeast-insert_row n r [] a = a
  AtLeast-insert_row n r (x ∷ xs) a = ground (arith, AtLeast-insert_row n r xs)

  AtLeast-order :
      (n : ℤ) (rs : List (Row Details)) → AtLeast n (order_by_sequence rs) → AtLeast n rs
  unfolding order_by_sequence
  AtLeast-order n [] a = tt
  AtLeast-order n (r ∷ rs) a =
      let both = AtLeast-insert_row n r (order_by_sequence rs) a in
      (both.0, AtLeast-order n rs both.1)

  -- the rows in ascending order
  abbrev pub Ascending : List (Row Details) → Type 0
  Ascending [] = Unit
  Ascending (r ∷ rs) = AtLeast r.sequence_num rs × Ascending rs

  insert_row-AtLeast :
      (n : ℤ) (r : Row Details) (rs : List (Row Details))
      → n ≤ℤ r.sequence_num
      → AtLeast n rs
      → AtLeast n (insert_row r rs)
  unfolding insert_row
  insert_row-AtLeast n r [] le a = (le, tt)
  insert_row-AtLeast n r (x ∷ xs) le a = ground (arith, insert_row-AtLeast n r xs)

  insert_row-Ascending :
      (r : Row Details) (rs : List (Row Details)) → Ascending rs → Ascending (insert_row r rs)
  unfolding insert_row
  insert_row-Ascending r [] a = (tt, tt)
  insert_row-Ascending r (x ∷ xs) a = ground (
    arith,
    insert_row-Ascending r xs,
    insert_row-AtLeast x.sequence_num r xs,
    AtLeast-mono r.sequence_num x.sequence_num xs,
  )

  pub order-Ascending : (rs : List (Row Details)) → Ascending (order_by_sequence rs)
  unfolding order_by_sequence
  order-Ascending [] = tt
  order-Ascending (r ∷ rs) = insert_row-Ascending r (order_by_sequence rs) (order-Ascending rs)

  -- No row below the first of the ordered ones.
  pub order-first :
      (table : List (Row Details)) (r : Row Details) (rs : List (Row Details))
      → order_by_sequence table ≡ r ∷ rs
      → AtLeast r.sequence_num table
  order-first table r rs e =
      let a : Ascending (r ∷ rs) = subst Ascending e (order-Ascending table) in
      AtLeast-order r.sequence_num table (rw e (omega arith, a.0))

  pub hash_at-below :
      (n : ℤ) (rs : List (Row Details)) → AtLeast (next_ℤ n) rs → hash_at n rs ≡ none
  unfolding hash_at
  hash_at-below n [] a = refl
  hash_at-below n (r ∷ rs) a = ground (arith, hash_at-below n rs, next_parts n)

  insert_row-first :
      (r : Row Details) (rs : List (Row Details))
      → AtLeast r.sequence_num rs
      → insert_row r rs ≡ r ∷ rs
  unfolding insert_row
  insert_row-first r [] a = refl
  insert_row-first r (x ∷ xs) a = ground arith

  pub order-of_Ascending : (rs : List (Row Details)) → Ascending rs → order_by_sequence rs ≡ rs
  unfolding order_by_sequence
  order-of_Ascending [] a = refl
  order-of_Ascending (r ∷ rs) a = rw (order-of_Ascending rs a.1) (insert_row-first r rs a.0)

  length-insert_row :
      (r : Row Details) (rs : List (Row Details)) → length (insert_row r rs) ≡ suc (length rs)
  unfolding insert_row
  length-insert_row r [] = refl
  length-insert_row r (x ∷ xs) = ground (arith, length-insert_row r xs)

  pub length-order : (rs : List (Row Details)) → length (order_by_sequence rs) ≡ length rs
  unfolding order_by_sequence
  length-order [] = refl
  length-order (r ∷ rs) = length-insert_row r (order_by_sequence rs) ∙ ap suc (length-order rs)

  pub in_window_all : (rs : List (Row Details)) → in_window none none rs ≡ rs
  unfolding in_window
  in_window_all [] = refl
  in_window_all (r ∷ rs) = ap (λ t. r ∷ t) (in_window_all rs)

module _ {Details : Type 0} (p : Primitives Details) where
  Linked-AtLeast :
      (h : List ℕ) (m n : ℤ) (rs : List (Row Details)) → m ≤ℤ n → Linked p h n rs → AtLeast m rs
  Linked-AtLeast h m n [] le l = tt
  Linked-AtLeast h m n (r ∷ rs) le l = (
    subst (λ k. m ≤ℤ k) (sym l.0.at_sequence) le,
    Linked-AtLeast r.current_hash m (next_ℤ n) rs (omega (arith, next_parts n)) l.1,
  )

  pub Linked-Ascending :
      (h : List ℕ) (n : ℤ) (rs : List (Row Details)) → Linked p h n rs → Ascending rs
  Linked-Ascending h n [] l = tt
  Linked-Ascending h n (r ∷ rs) l = (
    Linked-AtLeast r.current_hash r.sequence_num (next_ℤ n) rs
        (subst (λ k. k ≤ℤ next_ℤ n) (sym l.0.at_sequence) (omega (arith, next_parts n))) l.1,
    Linked-Ascending r.current_hash (next_ℤ n) rs l.1,
  )

  later_number : (n m : ℤ) (k : ℕ) → m ≡ n → leb_ℤ (plus_ℤ (next_ℤ n) k) m ≡ false
  later_number n m k e =
      subst (λ x. leb_ℤ (plus_ℤ (next_ℤ n) k) x ≡ false) (sym e)
        (ground (arith, plus_parts (next_ℤ n) k, next_parts n))

  -- The last entry of a chain is its head.
  pub last_entry-Linked :
      (h : List ℕ) (n : ℤ) (r : Row Details) (rs : List (Row Details))
      → Linked p h n (r ∷ rs)
      → last_entry (r ∷ rs) ≡ some (plus_ℤ n (length rs), head_hash h (r ∷ rs))
  unfolding last_entry plus_ℤ
  last_entry-Linked h n r [] l = ap (λ m. some (m, r.current_hash)) l.0.at_sequence
  last_entry-Linked h n r (x ∷ xs) l =
      ap (λ o. some (later (r.sequence_num, r.current_hash) o))
        (last_entry-Linked r.current_hash (next_ℤ n) x xs l.1)
      ∙ rw (later_number n r.sequence_num (length xs) l.0.at_sequence) refl
