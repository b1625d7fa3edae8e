-- ===== src/Hitl/Models.antt =====
-- app/db/models.py: the columns that the review service reads and writes, of the five tables that it
-- uses. The check constraints limit a status to the constructors here; a row's id is never 0.
use reg_engine_ai.Base.{ℕ, String, Bool, Option, List}

pub data ReviewStatus : Type 0 where
  pending in_review resolved rejected revision_required : ReviewStatus

pub data Severity : Type 0 where
  blocking advisory : Severity

pub data RuleHitlStatus : Type 0 where
  hitl_none hitl_advisory hitl_blocking hitl_resolved : RuleHitlStatus

pub data ProcessingState : Type 0 where
  ingested extracting extracted compiling awaiting_hitl approved deployed failed : ProcessingState

pub record HitlReview : Type 0 where
  pub id : ℕ
  pub review_id : String
  pub clause_id : ℕ
  pub compiled_rule_id : Option ℕ
  pub severity : Severity
  pub status : ReviewStatus
  pub compliance_officer_id : Option String
  pub resolution_notes : Option String
  pub resolved_at : Option ℕ
  pub approved_rule_version : Option ℕ
  pub approved_policy_sha256 : Option String

pub record CompiledRule : Type 0 where
  pub id : ℕ
  pub tenant_id : String
  pub rule_id : String
  pub rule_version : ℕ
  pub rego_policy : Option String
  pub is_compiled : Bool
  pub is_active : Bool
  pub hitl_status : RuleHitlStatus
  pub policy_sha256 : Option String

pub record Clause : Type 0 where
  pub id : ℕ
  pub circular_id : ℕ

-- The text of an error names the rejected review and the officer.
pub record Rejection : Type 0 where
  pub review_id : String
  pub rejected_by : String

pub record Circular : Type 0 where
  pub id : ℕ
  pub processing_state : ProcessingState
  pub error_message : Option Rejection

pub record CircularStateTransition : Type 0 where
  pub circular_id : ℕ
  pub from_state : ProcessingState
  pub to_state : ProcessingState
  pub triggered_by : String
  pub error_message : Option Rejection
  pub review_id : String

pub record Db : Type 0 where
  pub reviews : List HitlReview
  pub rules : List CompiledRule
  pub clauses : List Clause
  pub circulars : List Circular
  pub transitions : List CircularStateTransition
