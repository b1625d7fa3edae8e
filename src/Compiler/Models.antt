-- ===== src/Compiler/Models.antt =====
-- The rules that the compiler reads (app/agents/schemas.py) and what it gives back
-- (app/compiler/models.py). The evidence quotes, the trigger conditions, the provenance hashes and
-- the times are left out: the compiler copies them into texts or does not read them.
use reg_engine_ai.Base.{ℕ, String, Option, List}
use reg_engine_ai.Backtest.Json.{Json}

pub data ObligationType : Type 0 where
  mandatory prohibited conditional recommended : ObligationType

pub data ComparisonOperator : Type 0 where
  op_gte op_gt op_lte op_lt op_eq op_range : ComparisonOperator

pub record TargetEntity : Type 0 where
  pub raw_text : String
  pub normalized_entity : Option String

pub record NumericalThreshold (Number : Type 0) : Type 0 where
  pub metric : String
  pub canonical_fact : Option String
  pub operator : ComparisonOperator
  pub value : Number
  pub value_upper : Option Number
  pub unit : String
  pub applies_to : Option String

pub record ExtractedComplianceRule (Number : Type 0) : Type 0 where
  pub rule_id : String
  pub clause_number : Option String
  pub target_entities : List TargetEntity
  pub deterministic_logic : List (NumericalThreshold Number)
  pub qualitative_directives : List String
  pub obligation_type : ObligationType
  pub extraction_confidence : Number
  pub ambiguous_spans : List String

pub data AuditVerdict : Type 0 where
  audit_approved needs_revision audit_rejected : AuditVerdict

pub record AuditedComplianceRule (Number : Type 0) : Type 0 where
  pub rule : ExtractedComplianceRule Number
  pub verdict : AuditVerdict

pub data HitlReasonCode : Type 0 where
  qualitative_directive ambiguous_span low_extraction_confidence audit_not_approved : HitlReasonCode
  no_deterministic_logic conflicting_thresholds unresolved_entity : HitlReasonCode
  unknown_fact_metric invalid_metric_unit invalid_threshold_value : HitlReasonCode

pub data HitlSeverity : Type 0 where
  blocking advisory : HitlSeverity

-- The description and the excerpt are left out; `scope` is the text that the flag is about.
pub record HitlFlag : Type 0 where
  pub rule_id : String
  pub reason_code : HitlReasonCode
  pub severity : HitlSeverity
  pub scope : String

pub record JsonLogicRule (Number : Type 0) : Type 0 where
  pub rule_id : String
  pub logic : Json Number
  pub data_schema : List (String × String)
  pub thresholds_compiled : ℕ
