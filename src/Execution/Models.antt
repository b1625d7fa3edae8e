-- ===== src/Execution/Models.antt =====
-- app/execution/models.py: what the evaluator reads and writes. `Facts` is the type of the fact map,
-- which only OPA looks into. The receiving channel, the times and the metadata of a transaction are
-- left out: the evaluator does not read them. A reason is kept as data, before it is printed.
use reg_engine_ai.Base.{ℕ, String, Bool, Option, List}

pub data Decision : Type 0 where
  allow deny flagged : Decision

pub record TransactionPayload (Facts : Type 0) : Type 0 where
  pub transaction_id : String
  pub entity_type : String
  pub facts : Facts
  pub broker_id : Option String
  pub callback_url : Option String

pub record PolicyOutcome : Type 0 where
  pub rule_id : String
  pub package_name : String
  pub allow : Option Bool
  pub violations : List String
  pub circular_number : Option String
  pub clause_number : Option String
  pub rule_version : Option ℕ
  pub policy_sha256 : Option String
  pub canonical_facts_digest : Option String
  pub source_document_sha256 : Option String
  pub extracted_text_sha256 : Option String
  pub clause_sha256 : Option String

pub data Reason : Type 0 where
  kill_switch_active : Reason
  no_policy_applies : Reason
  violation : String → Reason
  undefined_policies : List String → Reason
  undefined_decision : Reason

-- `evaluated_at` is the clock's reading; `latency_ms` is left out.
pub record EvaluationResult : Type 0 where
  pub transaction_id : String
  pub decision : Decision
  pub matched_policies : List PolicyOutcome
  pub reasons : List Reason
  pub hitl_case_id : Option String
  pub evaluated_at : ℕ

pub data HitlStatus : Type 0 where
  pending approved rejected : HitlStatus

pub record HitlCase (Facts : Type 0) : Type 0 where
  pub case_id : String
  pub transaction : TransactionPayload Facts
  pub reason : List Reason
  pub matched_policies : List PolicyOutcome
  pub status : HitlStatus
  pub created_at : ℕ
  pub resolved_at : Option ℕ
  pub resolved_by : Option String
  pub resolution_notes : Option String
