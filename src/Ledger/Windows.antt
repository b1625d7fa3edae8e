-- ===== src/Ledger/Windows.antt =====
-- What a verification does not see, and what it takes for tampering.
use reg_engine_ai.Base.{
  ℕ, ℤ, pos, next_ℤ, ◌≤ℤ◌, ◌≡◌, refl, Bool, true, false, ◌&&◌, Option, none, List, [], ◌∷◌, ◌++◌,
  is_empty,
}
use reg_engine_ai.Ledger.Models.{Datetime, genesis_hash, ComplianceEvaluationEvent, Row}
use reg_engine_ai.Ledger.HashChain.{Primitives}
use reg_engine_ai.Ledger.Service.{append_entry, append_all}
use reg_engine_ai.Ledger.Verifier.{
  at_or_after, at_or_before, in_window, order_by_sequence, anchor, row_breaks, walk_rows,
  verify_chain,
}
use reg_engine_ai.Ledger.Chain.{Linked}
use reg_engine_ai.Ledger.Build.{verify_chain-iff-IsChain, Linked-IsChain}

module _ {Details : Type 0} (p : Primitives Details) where
  Linked-prefix :
      (h : List ℕ) (n : ℤ) (rows cut : List (Row Details))
      → Linked p h n (rows ++ cut)
      → Linked p h n rows
  Linked-prefix h n [] cut l = tt
  Linked-prefix h n (r ∷ rs) cut l = (l.0, Linked-prefix r.current_hash _ rs cut l.1)

  -- The rows of a chain from the genesis hash still verify once any number of the newest are gone.
  pub truncation_unseen :
      (n : ℤ) (rows cut : List (Row Details))
      → n ≤ℤ pos 0
      → Linked p genesis_hash n (rows ++ cut)
      → (verify_chain p rows none none).valid ≡ true
  truncation_unseen n rows cut le l =
      (verify_chain-iff-IsChain p rows).1
        (Linked-IsChain p n rows le (Linked-prefix genesis_hash n rows cut l))

  abbrev pub is_inside :
      Option Datetime → Option Datetime → ComplianceEvaluationEvent Details → Bool
  is_inside start end e = at_or_after start e.evaluated_at && at_or_before end e.evaluated_at

  is_empty-append :
      {A : Type 0} (xs : List A) (y : A) (ys : List A) → is_empty (xs ++ y ∷ ys) ≡ false
  is_empty-append [] y ys = refl
  is_empty-append (x ∷ xs) y ys = refl

  -- Three events appended in order, the first and the last inside a window and the second outside:
  -- the window does not verify, though nobody touched the table.
  pub window_false_alarm :
      (start end : Option Datetime) (a b c : ℕ × Datetime × ComplianceEvaluationEvent Details)
      → is_inside start end a.2 ≡ true
      → is_inside start end b.2 ≡ false
      → is_inside start end c.2 ≡ true
      → (verify_chain p (append_all p [] (a ∷ b ∷ c ∷ [])) start end).valid ≡ false
  unfolding verify_chain append_all append_entry in_window order_by_sequence anchor walk_rows
      row_breaks next_ℤ
  window_false_alarm start end (i, t, e0) (j, u, e1) (k, v, e2) x y z =
      rw (x, y, z) (is_empty-append _ _ _)
