-- ===== src/Ledger/HashChain.antt =====
-- app/ledger/hash_chain.py. SHA-256, `json.dumps`, `isoformat`, the decimal form of an integer, what
-- `model_dump(mode="json")` makes of the details and what the JSONB column gives back of them are the
-- fields of `Primitives`: every theorem holds whatever these functions are, but for the
-- properties of them that it names.
use reg_engine_ai.Base.{ℕ, ℤ, String, Option, none, some, List, [], ◌∷◌, ◌++◌, codes}
use reg_engine_ai.Ledger.Models.{Datetime, naive, aware, Row}

-- A value of the dictionary that is hashed.
pub data Value (Details : Type 0) : Type 0 where
  null : Value Details
  str : String → Value Details
  moment : Datetime → Value Details
  mapping : Details → Value Details

pub record Primitives (Details : Type 0) : Type 0 where
  pub sha256 : List ℕ → List ℕ
  pub dumps : List (String × Value Details) → List ℕ
  pub isoformat : Datetime → String
  pub str_int : ℤ → String
  pub json_mode : Details → Details
  pub jsonb : Details → Details

-- The ten entries that `_PAYLOAD_FIELDS` selects from an event or from a row.
pub record Payload (Details : Type 0) : Type 0 where
  pub broker_id : String
  pub transaction_id : String
  pub evaluated_at : Datetime
  pub circular_id : String
  pub clause_hash : String
  pub section_reference : String
  pub rule_id : String
  pub evaluation_result : String
  pub hitl_review_id : Option String
  pub details : Details

-- `value if value.tzinfo else value.replace(tzinfo=utc)`, then `.astimezone(utc)`
unfoldable pub to_utc : Datetime → Datetime
to_utc (naive t) = aware t "UTC"
to_utc (aware t zone) = aware t "UTC"

abbrev optional : {Details : Type 0} → Option String → Value Details
optional none = null
optional (some s) = str s

module _ {Details : Type 0} (p : Primitives Details) where
  unfoldable pub iso : Value Details → Value Details
  unfolding to_utc
  iso (moment t) = str (p.isoformat (to_utc t))
  iso v = v

  unfoldable pub canonical_payload : Payload Details → List ℕ
  unfolding iso
  canonical_payload e = p.dumps (
      ("broker_id", iso (str e.broker_id))
      ∷ ("transaction_id", iso (str e.transaction_id))
      ∷ ("evaluated_at", iso (moment e.evaluated_at))
      ∷ ("circular_id", iso (str e.circular_id))
      ∷ ("clause_hash", iso (str e.clause_hash))
      ∷ ("section_reference", iso (str e.section_reference))
      ∷ ("rule_id", iso (str e.rule_id))
      ∷ ("evaluation_result", iso (str e.evaluation_result))
      ∷ ("hitl_review_id", iso (optional e.hitl_review_id))
      ∷ ("details", iso (mapping e.details))
      ∷ [])

  unfoldable pub compute_payload_digest : Payload Details → List ℕ
  compute_payload_digest e = p.sha256 (canonical_payload e)

  -- the f-string that a block's hash covers
  unfoldable pub block_material : List ℕ → List ℕ → ℤ → Datetime → List ℕ
  unfolding to_utc
  block_material previous_hash payload_digest sequence_num evaluated_at =
      previous_hash
      ++ (b'|'
          ∷ (payload_digest
              ++ (b'|'
                  ∷ (codes (p.str_int sequence_num)
                      ++ (b'|' ∷ codes (p.isoformat (to_utc evaluated_at)))))))

  unfoldable pub compute_block_hash : List ℕ → List ℕ → ℤ → Datetime → List ℕ
  compute_block_hash previous_hash payload_digest sequence_num evaluated_at =
      p.sha256 (block_material previous_hash payload_digest sequence_num evaluated_at)

-- `dict(row)`, as far as the hash reads it
unfoldable pub row_payload : {Details : Type 0} → Row Details → Payload Details
row_payload r = record {
  broker_id = r.broker_id;
  transaction_id = r.transaction_id;
  evaluated_at = r.evaluated_at;
  circular_id = r.circular_id;
  clause_hash = r.clause_hash;
  section_reference = r.section_reference;
  rule_id = r.rule_id;
  evaluation_result = r.evaluation_result;
  hitl_review_id = r.hitl_review_id;
  details = r.details;
}
