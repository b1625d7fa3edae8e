-- ===== src/Ledger/Build.antt =====
-- The tables that `append_entry` builds, and what the verifier says of them.
use reg_engine_ai.Base.{
  ℕ, ℤ, pos, ◌≤ℤ◌, leb_ℤ, prev_ℤ, plus_ℤ, next-prev, next-plus, ◌≡◌, refl, sym, ap, subst, ◌↔◌,
  true, false, Option, none, some, List, [], ◌∷◌, arith, length, is_empty, All, Bool-cases, inl,
  inr,
}
use reg_engine_ai.Ledger.Models.{Datetime, genesis_hash, ComplianceEvaluationEvent, Row}
use reg_engine_ai.Ledger.HashChain.{Primitives, row_payload, compute_payload_digest}
use reg_engine_ai.Ledger.Service.{
  last_entry, event_payload, stored, next_row, append_entry, append_all,
}
use reg_engine_ai.Ledger.Verifier.{
  order_by_sequence, anchor, hash_at, walk_rows, verify_from, verify_rows, verify_chain,
}
use reg_engine_ai.Ledger.Chain.{
  head_hash, Follows, Linked, walk_rows_sound, walk_rows_complete, Linked-append,
}
use reg_engine_ai.Ledger.Order.{
  AtLeast, order-first, hash_at-below, order-of_Ascending, in_window_all, Linked-Ascending,
  last_entry-Linked,
}

module _ {Details : Type 0} (p : Primitives Details) where
  -- The whole table, in order, is a chain from the genesis hash, numbered from 0 or from below it.
  abbrev pub IsChain : List (Row Details) → Type 0
  IsChain table =
      (start : ℤ) × (start ≤ℤ pos 0) × Linked p genesis_hash start (order_by_sequence table)

  is_empty_iff : {A : Type 0} (xs : List A) → (is_empty xs ≡ true) ↔ (xs ≡ [])
  is_empty_iff [] = (λ e. refl, λ e. refl)
  is_empty_iff (x ∷ xs) = (λ e. cc, λ e. cc)

  module _ (table : List (Row Details)) (r : Row Details) (rs : List (Row Details)) where
    verify_from_genesis :
        leb_ℤ r.sequence_num (pos 0) ≡ true
        → ((verify_from p (anchor r.sequence_num table) r rs).valid ≡ true)
          ↔ Linked p genesis_hash r.sequence_num (r ∷ rs)
    unfolding verify_from anchor
    verify_from_genesis low =
        let done = is_empty_iff (walk_rows p genesis_hash r.sequence_num (r ∷ rs)) in
        rw low (
          λ v. walk_rows_sound p genesis_hash r.sequence_num (r ∷ rs) (done.0 v),
          λ l. done.1 (walk_rows_complete p genesis_hash r.sequence_num (r ∷ rs) l),
        )

    -- Above 0 the table has no row to anchor the first of the ordered ones at.
    verify_from_above :
        leb_ℤ r.sequence_num (pos 0) ≡ false
        → order_by_sequence table ≡ r ∷ rs
        → (verify_from p (anchor r.sequence_num table) r rs).valid ≡ false
    unfolding verify_from anchor
    verify_from_above high e =
        let none_below : hash_at (prev_ℤ r.sequence_num) table ≡ none =
          hash_at-below (prev_ℤ r.sequence_num) table (
            subst (λ m. AtLeast m table) (sym (next-prev r.sequence_num))
              (order-first table r rs e)) in
        rw (high, none_below) refl

    verify_from_iff :
        order_by_sequence table ≡ r ∷ rs
        → ((verify_from p (anchor r.sequence_num table) r rs).valid ≡ true)
          ↔ ((start : ℤ) × (start ≤ℤ pos 0) × Linked p genesis_hash start (r ∷ rs))
    verify_from_iff e = elim (Bool-cases (leb_ℤ r.sequence_num (pos 0))) [
      | inl low ↦ (
        λ v. (r.sequence_num, ground (arith, low), (verify_from_genesis low).0 v),
        λ (start, le, l).
            (verify_from_genesis low).1
              (subst (λ n. Linked p genesis_hash n (r ∷ rs)) (sym l.0.at_sequence) l),
      )
      | inr high ↦ (
        λ v. absurd (cc (verify_from_above high e, v)),
        λ (start, le, l).
            absurd (ground (arith, high, subst (λ n. n ≤ℤ pos 0) (sym l.0.at_sequence) le)),
      )
    ]

  verify_rows_iff :
      (table rows : List (Row Details))
      → order_by_sequence table ≡ rows
      → ((verify_rows p table rows).valid ≡ true)
        ↔ ((start : ℤ) × (start ≤ℤ pos 0) × Linked p genesis_hash start rows)
  unfolding verify_rows
  verify_rows_iff table [] e = (λ v. (pos 0, omega arith, tt), λ l. refl)
  verify_rows_iff table (r ∷ rs) e = verify_from_iff table r rs e

  -- A verification of the whole table succeeds exactly when its rows, in order, are a chain from
  -- the genesis hash: numbered without a gap from some number that is not above 0, each pointing at
  -- the one before, with right hashes.
  pub verify_chain-iff-IsChain :
      (table : List (Row Details)) → ((verify_chain p table none none).valid ≡ true) ↔ IsChain table
  unfolding verify_chain
  verify_chain-iff-IsChain table =
      rw in_window_all (verify_rows_iff table (order_by_sequence table) refl)

  -- What JSONB gives back of the details of an event is what was digested of them.
  abbrev pub IsKept : ComplianceEvaluationEvent Details → Type 0
  IsKept e = p.jsonb e.details ≡ p.json_mode e.details

  payload_kept :
      (last : Option (ℤ × List ℕ)) (id : ℕ) (now : Datetime) (e : ComplianceEvaluationEvent Details)
      → IsKept e
      → event_payload p e ≡ row_payload (stored p (next_row p last id now e))
  unfolding next_row row_payload event_payload stored
  payload_kept last id now e k = rw k refl

  next_row-Follows :
      (rs : List (Row Details)) (id : ℕ) (now : Datetime) (e : ComplianceEvaluationEvent Details)
      → IsKept e
      → Linked p genesis_hash (pos 0) rs
      → Follows p
          (head_hash genesis_hash rs)
          (plus_ℤ (pos 0) (length rs))
          (stored p (next_row p (last_entry rs) id now e))
  unfolding next_row stored plus_ℤ
  next_row-Follows [] id now e k l =
      unfold last_entry in
      record {
        at_sequence = refl;
        points_back = refl;
        digest_right = ap (compute_payload_digest p) (payload_kept none id now e k);
        block_right = refl;
      }
  next_row-Follows (r ∷ rs) id now e k l =
      rw (last_entry-Linked p genesis_hash (pos 0) r rs l) (record {
        at_sequence = next-plus (pos 0) (length rs);
        points_back = refl;
        digest_right = ap (compute_payload_digest p) (
            payload_kept (some (plus_ℤ (pos 0) (length rs), head_hash genesis_hash (r ∷ rs))) id now
              e k);
        block_right = refl;
      })

  pub append_entry-Linked :
      (rs : List (Row Details)) (id : ℕ) (now : Datetime) (e : ComplianceEvaluationEvent Details)
      → IsKept e
      → Linked p genesis_hash (pos 0) rs
      → Linked p genesis_hash (pos 0) (append_entry p rs id now e).0
  unfolding append_entry
  append_entry-Linked rs id now e k l =
      Linked-append p genesis_hash (pos 0) rs (stored p (next_row p (last_entry rs) id now e)) l
        (next_row-Follows rs id now e k l)

  pub append_all-Linked :
      (rs : List (Row Details)) (events : List (ℕ × Datetime × ComplianceEvaluationEvent Details))
      → All (λ x. IsKept x.2) events
      → Linked p genesis_hash (pos 0) rs
      → Linked p genesis_hash (pos 0) (append_all p rs events)
  unfolding append_all
  append_all-Linked rs [] k l = l
  append_all-Linked rs ((id, now, e) ∷ rest) k l =
      append_all-Linked (append_entry p rs id now e).0 rest k.1
        (append_entry-Linked rs id now e k.0 l)

  pub Linked-IsChain :
      (n : ℤ) (rs : List (Row Details)) → n ≤ℤ pos 0 → Linked p genesis_hash n rs → IsChain rs
  Linked-IsChain n rs le l =
      (n, le, rw (order-of_Ascending rs (Linked-Ascending p genesis_hash n rs l)) l)

  -- Whatever events the service appends to an empty table, the whole table verifies, if of the
  -- details of each event JSONB gives back what was digested.
  pub verify_chain-append_all :
      (events : List (ℕ × Datetime × ComplianceEvaluationEvent Details))
      → All (λ x. IsKept x.2) events
      → (verify_chain p (append_all p [] events) none none).valid ≡ true
  verify_chain-append_all events k = (verify_chain-iff-IsChain (append_all p [] events)).1 (
      Linked-IsChain (pos 0) (append_all p [] events) (omega arith)
        (append_all-Linked [] events k tt))

  -- A table of one event that the service appended verifies exactly when the digest of what
  -- `model_dump(mode="json")` made of the event is the digest of what the database gives back of it:
  -- nobody has to touch the table for it to fail.
  pub verify_chain-append_entry :
      (id : ℕ) (now : Datetime) (e : ComplianceEvaluationEvent Details)
      → let (table, entry) = append_entry p [] id now e in
        ((verify_chain p table none none).valid ≡ true) ↔ (
          compute_payload_digest p (event_payload p e)
          ≡ compute_payload_digest p (row_payload (record entry { details = p.jsonb e.details })))
  unfolding append_entry next_row stored last_entry order_by_sequence
  verify_chain-append_entry id now e =
      let row = (append_entry p [] id now e).1 in
      let back : Row Details = record row { details = p.jsonb e.details } in
      (
        λ v. let (n, le, l) = (verify_chain-iff-IsChain (back ∷ [])).0 v in l.0.digest_right,
        λ d. (verify_chain-iff-IsChain (back ∷ [])).1 (
            Linked-IsChain (pos 0) (back ∷ []) (omega arith) (
              record {
                at_sequence = refl;
                points_back = refl;
                digest_right = d;
                block_right = refl;
              },
              tt,
            )),
      )
