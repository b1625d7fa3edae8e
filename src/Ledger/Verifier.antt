-- ===== src/Ledger/Verifier.antt =====
-- app/ledger/verifier.py: `verify_chain`, and the two queries that it makes.
use reg_engine_ai.Base.{
  ℕ, ℤ, pos, next_ℤ, prev_ℤ, leb_ℤ, eqb_ℤ, Bool, not, ◌&&◌, true, false, Option, none, some, List,
  [], ◌∷◌, ◌++◌, leb, length, keep_if, is_empty, codes, text_eq, if◌then◌else◌,
}
use reg_engine_ai.Ledger.Models.{
  Datetime, naive, aware, genesis_hash, Row, ChainBreak, ChainVerificationResult,
}
use reg_engine_ai.Ledger.HashChain.{
  Primitives, compute_payload_digest, compute_block_hash, row_payload,
}

-- The column has a time zone, so the database compares instants.
abbrev pub instant : Datetime → ℕ
instant (naive t) = t
instant (aware t zone) = t

abbrev pub at_or_after : Option Datetime → Datetime → Bool
at_or_after none t = true
at_or_after (some start) t = leb (instant start) (instant t)

abbrev pub at_or_before : Option Datetime → Datetime → Bool
at_or_before none t = true
at_or_before (some end) t = leb (instant t) (instant end)

module _ {Details : Type 0} where
  unfoldable pub in_window :
      Option Datetime → Option Datetime → List (Row Details) → List (Row Details)
  in_window start end =
      keep_if (λ r. at_or_after start r.evaluated_at && at_or_before end r.evaluated_at)

  unfoldable pub insert_row : Row Details → List (Row Details) → List (Row Details)
  insert_row r [] = r ∷ []
  insert_row r (x ∷ xs) =
      if leb_ℤ r.sequence_num x.sequence_num then r ∷ x ∷ xs else x ∷ insert_row r xs

  -- `ORDER BY sequence_num ASC`
  unfoldable pub order_by_sequence : List (Row Details) → List (Row Details)
  unfolding insert_row
  order_by_sequence [] = []
  order_by_sequence (r ∷ rs) = insert_row r (order_by_sequence rs)

  -- `SELECT current_hash WHERE sequence_num = n`
  unfoldable pub hash_at : ℤ → List (Row Details) → Option (List ℕ)
  hash_at n [] = none
  hash_at n (r ∷ rs) = if eqb_ℤ r.sequence_num n then some r.current_hash else hash_at n rs

  -- the hash that the first row of the range has to point at
  unfoldable pub anchor : ℤ → List (Row Details) → Option (List ℕ)
  unfolding hash_at prev_ℤ
  anchor n table = if leb_ℤ n (pos 0) then some genesis_hash else hash_at (prev_ℤ n) table

  abbrev last_sequence : Row Details → List (Row Details) → ℤ
  last_sequence r [] = r.sequence_num
  last_sequence r (x ∷ xs) = last_sequence x xs

abbrev break_if : Bool → ChainBreak → List ChainBreak
break_if true b = b ∷ []
break_if false b = []

abbrev unanchored : ℤ → ChainBreak
unanchored n = record {
  sequence_num = n;
  reason = "predecessor row (sequence_num - 1) is missing; chain cannot be anchored into history";
  expected = codes "a row with the previous sequence_num";
  actual = codes "no row found";
}

module _ {Details : Type 0} (p : Primitives Details) where
  -- The body of the loop. `expected_sequence` is `previous_sequence + 1`.
  unfoldable pub row_breaks : List ℕ → ℤ → Row Details → List ChainBreak
  row_breaks previous_hash expected_sequence r =
      let seq : ℤ = r.sequence_num in
      let recomputed_digest : List ℕ = compute_payload_digest p (row_payload r) in
      let recomputed_block_hash : List ℕ =
        compute_block_hash p r.previous_hash r.payload_digest seq r.evaluated_at in
      break_if (not (eqb_ℤ seq expected_sequence)) (record {
        sequence_num = seq;
        reason = "gap in sequence_num — a row is missing between this and the prior one";
        expected = codes (p.str_int expected_sequence);
        actual = codes (p.str_int seq);
      })
      ++ (break_if (not (text_eq r.previous_hash previous_hash)) (record {
        sequence_num = seq;
        reason = "previous_hash does not match the prior row's current_hash";
        expected = previous_hash;
        actual = r.previous_hash;
      })
          ++ (break_if (not (text_eq recomputed_digest r.payload_digest)) (record {
            sequence_num = seq;
            reason =
                "payload_digest does not match recomputed hash of stored business fields — row content was altered";
            expected = recomputed_digest;
            actual = r.payload_digest;
          })
              ++ break_if (not (text_eq recomputed_block_hash r.current_hash)) (record {
                sequence_num = seq;
                reason = "current_hash does not match recomputed block hash";
                expected = recomputed_block_hash;
                actual = r.current_hash;
              })))

  -- the loop over the rows
  unfoldable pub walk_rows : List ℕ → ℤ → List (Row Details) → List ChainBreak
  walk_rows previous_hash expected_sequence [] = []
  walk_rows previous_hash expected_sequence (r ∷ rs) =
      row_breaks previous_hash expected_sequence r
      ++ walk_rows r.current_hash (next_ℤ r.sequence_num) rs

  unfoldable pub verify_from :
      Option (List ℕ) → Row Details → List (Row Details) → ChainVerificationResult
  verify_from none r rs = record {
    valid = false;
    entries_checked = length (r ∷ rs);
    range_start_sequence = some r.sequence_num;
    range_end_sequence = some (last_sequence r rs);
    breaks = unanchored r.sequence_num ∷ [];
  }
  verify_from (some anchor_hash) r rs =
      let breaks : List ChainBreak = walk_rows anchor_hash r.sequence_num (r ∷ rs) in
      record {
        valid = is_empty breaks;
        entries_checked = length (r ∷ rs);
        range_start_sequence = some r.sequence_num;
        range_end_sequence = some (last_sequence r rs);
        breaks = breaks;
      }

  unfoldable pub verify_rows : List (Row Details) → List (Row Details) → ChainVerificationResult
  unfolding verify_from
  verify_rows table [] = record {
    valid = true;
    entries_checked = 0;
    range_start_sequence = none;
    range_end_sequence = none;
    breaks = [];
  }
  verify_rows table (r ∷ rs) = verify_from (anchor r.sequence_num table) r rs

  unfoldable pub verify_chain :
      List (Row Details) → Option Datetime → Option Datetime → ChainVerificationResult
  unfolding verify_rows
  verify_chain table start end = verify_rows table (order_by_sequence (in_window start end table))
