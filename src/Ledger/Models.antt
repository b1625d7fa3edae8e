-- ===== src/Ledger/Models.antt =====
-- app/ledger/models.py: the event that a caller appends, the stored row, and the verdict of a
-- verification. `Details` is the type of the JSON evidence, which the ledger only hashes. A time is
-- its UTC instant; an aware one also names its zone. The nullable foreign keys, which are outside
-- the chain and which `append_entry` does not write, are left out.
use reg_engine_ai.Base.{
  ℕ, ℤ, String, Bool, true, false, not, Option, none, some, List, replicate, Result, ok, err, ◌&&◌,
  str_eq, if◌then◌else◌,
}

pub data Datetime : Type 0 where
  naive : ℕ → Datetime
  aware : ℕ → String → Datetime

abbrev pub genesis_hash : List ℕ
genesis_hash = replicate 64 b'0'

pub data EvaluationOutcome : Type 0 where
  pass fail hitl_review : EvaluationOutcome

-- `EvaluationOutcome.value`
unfoldable pub outcome_value : EvaluationOutcome → String
outcome_value pass = "PASS"
outcome_value fail = "FAIL"
outcome_value hitl_review = "HITL_REVIEW"

pub record ComplianceEvaluationEvent (Details : Type 0) : Type 0 where
  pub broker_id : String
  pub transaction_id : String
  pub evaluated_at : Datetime
  pub circular_id : String
  pub clause_hash : String
  pub section_reference : String
  pub rule_id : String
  pub evaluation_result : EvaluationOutcome
  pub hitl_review_id : Option String
  pub details : Details

-- The truth value of an optional text: `None` and the empty text are false.
unfoldable pub truthy : Option String → Bool
truthy none = false
truthy (some s) = not (str_eq s "")

abbrev is_hitl : EvaluationOutcome → Bool
is_hitl hitl_review = true
is_hitl _ = false

pub data ValidationError : Type 0 where
  review_id_required review_id_not_allowed : ValidationError

-- `_hitl_review_id_consistency`
unfoldable pub validate_event :
    {Details : Type 0}
    → ComplianceEvaluationEvent Details
    → Result ValidationError (ComplianceEvaluationEvent Details)
unfolding truthy
validate_event e =
    if is_hitl e.evaluation_result && not (truthy e.hitl_review_id)
    then err review_id_required
    else if not (is_hitl e.evaluation_result) && truthy e.hitl_review_id
    then err review_id_not_allowed
    else ok e

-- A row of `compliance_audit_ledger`, which is also the shape of `LedgerEntry`.
pub record Row (Details : Type 0) : Type 0 where
  pub id : ℕ
  pub sequence_num : ℤ
  pub broker_id : String
  pub transaction_id : String
  pub evaluated_at : Datetime
  pub circular_id : String
  pub clause_hash : String
  pub section_reference : String
  pub rule_id : String
  pub evaluation_result : String
  pub hitl_review_id : Option String
  pub details : Details
  pub payload_digest : List ℕ
  pub previous_hash : List ℕ
  pub current_hash : List ℕ
  pub created_at : Datetime

pub record ChainBreak : Type 0 where
  pub sequence_num : ℤ
  pub reason : String
  pub expected : List ℕ
  pub actual : List ℕ

-- `verified_at`, the time of the call, is left out.
pub record ChainVerificationResult : Type 0 where
  pub valid : Bool
  pub entries_checked : ℕ
  pub range_start_sequence : Option ℤ
  pub range_end_sequence : Option ℤ
  pub breaks : List ChainBreak
