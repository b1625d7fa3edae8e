-- ===== src/Ledger/Service.antt =====
-- app/ledger/service.py: `LedgerService._append_entry`. The advisory lock holds for the whole
-- transaction, so an append is one step on the table.
use reg_engine_ai.Base.{
  ℕ, ℤ, pos, next_ℤ, leb_ℤ, Option, none, some, List, [], ◌∷◌, ◌++◌, if◌then◌else◌,
}
use reg_engine_ai.Ledger.Models.{
  Datetime, genesis_hash, outcome_value, ComplianceEvaluationEvent, Row,
}
use reg_engine_ai.Ledger.HashChain.{Primitives, Payload, compute_payload_digest, compute_block_hash}

-- the better of a row and the best of the rest, by sequence number
abbrev pub later : ℤ × List ℕ → Option (ℤ × List ℕ) → ℤ × List ℕ
later (n, h) none = (n, h)
later (n, h) (some (m, k)) = if leb_ℤ m n then (n, h) else (m, k)

-- `ORDER BY sequence_num DESC LIMIT 1`
unfoldable pub last_entry : {Details : Type 0} → List (Row Details) → Option (ℤ × List ℕ)
last_entry [] = none
last_entry (r ∷ rs) = some (later (r.sequence_num, r.current_hash) (last_entry rs))

abbrev next_sequence : Option (ℤ × List ℕ) → ℤ
next_sequence none = pos 0
next_sequence (some (n, h)) = next_ℤ n

abbrev next_previous_hash : Option (ℤ × List ℕ) → List ℕ
next_previous_hash none = genesis_hash
next_previous_hash (some (n, h)) = h

-- `event.model_dump(mode="json")`, with `evaluated_at` put back
unfoldable pub event_payload :
    {Details : Type 0} → Primitives Details → ComplianceEvaluationEvent Details → Payload Details
event_payload p e = record {
  broker_id = e.broker_id;
  transaction_id = e.transaction_id;
  evaluated_at = e.evaluated_at;
  circular_id = e.circular_id;
  clause_hash = e.clause_hash;
  section_reference = e.section_reference;
  rule_id = e.rule_id;
  evaluation_result = outcome_value e.evaluation_result;
  hitl_review_id = e.hitl_review_id;
  details = p.json_mode e.details;
}

module _ {Details : Type 0} (p : Primitives Details) where
  -- The row that follows `last`. The database gives `id`, the clock gives `now`.
  unfoldable pub next_row :
      Option (ℤ × List ℕ) → ℕ → Datetime → ComplianceEvaluationEvent Details → Row Details
  unfolding event_payload
  next_row last id now e =
      let sequence_num : ℤ = next_sequence last in
      let previous_hash : List ℕ = next_previous_hash last in
      let payload_digest : List ℕ = compute_payload_digest p (event_payload p e) in
      record {
        id = id;
        sequence_num = sequence_num;
        broker_id = e.broker_id;
        transaction_id = e.transaction_id;
        evaluated_at = e.evaluated_at;
        circular_id = e.circular_id;
        clause_hash = e.clause_hash;
        section_reference = e.section_reference;
        rule_id = e.rule_id;
        evaluation_result = outcome_value e.evaluation_result;
        hitl_review_id = e.hitl_review_id;
        details = e.details;
        payload_digest = payload_digest;
        previous_hash = previous_hash;
        current_hash =
            compute_block_hash p previous_hash payload_digest sequence_num e.evaluated_at;
        created_at = now;
      }

  -- The row as the database gives it back.
  unfoldable pub stored : Row Details → Row Details
  stored r = record r { details = p.jsonb r.details }

  -- The new table, and the entry that is returned, with the details of the event.
  unfoldable pub append_entry :
      List (Row Details)
      → ℕ
      → Datetime
      → ComplianceEvaluationEvent Details
      → List (Row Details) × Row Details
  unfolding last_entry next_row stored
  append_entry table id now e =
      let row : Row Details = next_row (last_entry table) id now e in
      (table ++ stored row ∷ [], row)

  -- A table that only this service wrote, from the appends in order.
  unfoldable pub append_all :
      List (Row Details)
      → List (ℕ × Datetime × ComplianceEvaluationEvent Details)
      → List (Row Details)
  append_all table [] = table
  append_all table ((id, now, e) ∷ rest) = append_all (append_entry table id now e).0 rest
