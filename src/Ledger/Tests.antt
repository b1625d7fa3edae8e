-- ===== src/Ledger/Tests.antt =====
-- Runs of the ledger, and its theorems at concrete events.
use reg_engine_ai.Base.{
  ℕ, ◌+◌, ◌≡◌, refl, ◌↔◌, ◌⊎◌, true, false, none, some, List, [], ◌∷◌, map, All, next_ℤ, text_eq,
  length, replicate,
}
use reg_engine_ai.Ledger.Models.{
  naive, aware, Datetime, pass, hitl_review, ComplianceEvaluationEvent, validate_event,
  review_id_required,
}
use reg_engine_ai.Ledger.HashChain.{
  Primitives, Value, mapping, row_payload, compute_payload_digest, canonical_payload,
}
use reg_engine_ai.Ledger.Service.{append_all, append_entry, event_payload}
use reg_engine_ai.Ledger.Verifier.{
  order_by_sequence, in_window, verify_chain, anchor, walk_rows, row_breaks,
}
use reg_engine_ai.Ledger.Build.{
  IsKept, IsChain, verify_chain-iff-IsChain, verify_chain-append_all, verify_chain-append_entry,
}
use reg_engine_ai.Ledger.Tamper.{Collision, SamePayloads, same_head-SamePayloads}
use reg_engine_ai.Ledger.Windows.{window_false_alarm}
use reg_engine_ai.Base.{err, ok, Result, String, Option, str_eq, if◌then◌else◌}
use reg_engine_ai.Ledger.Models.{Row}
use reg_engine_ai.Ledger.Integration.{
  Details, EvidenceHash, Outside, build_ledger_events, policy_events, or_transaction_event,
  transaction_event, decision_result, write_events, log_evaluation,
}
use reg_engine_ai.Ledger.Recording.{is_ok, evaluation_recorded, build_ledger_events_exact}
use reg_engine_ai.Execution.Models.{allow, TransactionPayload, EvaluationResult}
use reg_engine_ai.Execution.HitlQueue.{HitlQueue}
use reg_engine_ai.Execution.Registry.{PolicyEntry}
use reg_engine_ai.Execution.Evaluator.{
  OpaDecision, OpaEngineError, opa_failed, InputDoc, outcomes_of, outcome_of, reduce, finish,
  all_violations, evaluate_transaction,
}

abbrev total : List ℕ → ℕ
total [] = 0
total (c ∷ cs) = c + total cs

-- A toy digest of 64 code points.
abbrev toy : Primitives ℕ
toy = record {
  sha256 = λ m. total m ∷ replicate 63 b'a';
  dumps = λ entries. length entries ∷ [];
  isoformat = λ t. "t";
  str_int = λ n. "n";
  json_mode = λ d. d;
  jsonb = λ d. d;
}

abbrev event_at : ℕ → ComplianceEvaluationEvent ℕ
event_at t = record {
  broker_id = "broker-1";
  transaction_id = "txn-1";
  evaluated_at = naive t;
  circular_id = "SEBI/HO/2024";
  clause_hash = "c";
  section_reference = "3.2.1";
  rule_id = "rule-1";
  evaluation_result = pass;
  hitl_review_id = none;
  details = 0;
}

abbrev events : List (ℕ × Datetime × ComplianceEvaluationEvent ℕ)
events = (1, naive 10, event_at 10) ∷ (2, naive 11, event_at 30) ∷ (3, naive 12, event_at 12) ∷ []

abbrev pending : ComplianceEvaluationEvent ℕ
pending = record {
  broker_id = "broker-1";
  transaction_id = "txn-1";
  evaluated_at = naive 5;
  circular_id = "SEBI/HO/2024";
  clause_hash = "c";
  section_reference = "3.2.1";
  rule_id = "rule-1";
  evaluation_result = hitl_review;
  hitl_review_id = some "";
  details = 0;
}

events-IsKept : All (λ x. IsKept toy x.2) events
events-IsKept = (refl, (refl, (refl, tt)))

-- an empty review id does not count
validate_event-pending : validate_event pending ≡ err review_id_required
unfolding validate_event
validate_event-pending = refl

verify_chain-events : (verify_chain toy (append_all toy [] events) none none).entries_checked ≡ 3
unfolding verify_chain append_all append_entry in_window order_by_sequence anchor next_ℤ
verify_chain-events = refl

verify_chain-append_all_example :
    (verify_chain toy (append_all toy [] events) none none).valid ≡ true
verify_chain-append_all_example = verify_chain-append_all toy events events-IsKept

verify_chain-iff-IsChain_example :
    ((verify_chain toy (append_all toy [] events) none none).valid ≡ true)
    ↔ IsChain toy (append_all toy [] events)
verify_chain-iff-IsChain_example = verify_chain-iff-IsChain toy (append_all toy [] events)

same_head-SamePayloads_example :
    Collision toy
    ⊎ SamePayloads toy
        (order_by_sequence (append_all toy [] events))
        (order_by_sequence (append_all toy [] events))
same_head-SamePayloads_example =
    same_head-SamePayloads toy (λ m. refl) (append_all toy [] events) (append_all toy [] events)
      (verify_chain-append_all toy events events-IsKept)
      (verify_chain-append_all toy events events-IsKept) refl refl

abbrev two_events : List (ℕ × Datetime × ComplianceEvaluationEvent ℕ)
two_events = (1, naive 10, event_at 10) ∷ (2, naive 11, event_at 30) ∷ []

window_false_alarm_example :
    (verify_chain toy (append_all toy [] events) (some (naive 9)) (some (aware 20 "IST"))).valid
    ≡ false
window_false_alarm_example =
    window_false_alarm toy (some (naive 9)) (some (aware 20 "IST")) (1, naive 10, event_at 10)
      (2, naive 11, event_at 30) (3, naive 12, event_at 12) refl refl refl

abbrev evidence_hash : EvidenceHash ℕ
evidence_hash = record {
  hash_transaction = λ c. "digest";
  hash_evidence = λ e. "digest";
  hash_transaction_evidence = λ e. "digest";
  explain = λ o. [];
}

abbrev transaction : TransactionPayload ℕ
transaction = record {
  transaction_id = "txn-1";
  entity_type = "Stockbroker";
  facts = 7;
  broker_id = some "broker-1";
  callback_url = none;
}

abbrev policies : String → List PolicyEntry
policies entity_type =
    record {
      rule_id = "a:1";
      package_name = "up";
      rule_version = some 1;
      policy_sha256 = none;
      canonical_facts_digest = none;
    }
    ∷ record {
      rule_id = "b:1";
      package_name = "down";
      rule_version = some 1;
      policy_sha256 = none;
      canonical_facts_digest = none;
    }
    ∷ []

-- One policy names a violation, the other cannot be reached.
abbrev half_down : String → InputDoc ℕ → Result OpaEngineError (Option OpaDecision)
half_down package_name doc =
    if str_eq package_name "up"
    then ok (
        some (record {
          allow = some false;
          violations = some ("margin is 15 %, below 20 %" ∷ []);
          circular_number = none;
          clause_number = none;
          rule_version = none;
          policy_sha256 = none;
          canonical_facts_digest = none;
          source_document_sha256 = none;
          extracted_text_sha256 = none;
          source_sha256 = none;
        }))
    else err opa_failed

abbrev no_cases : HitlQueue ℕ
no_cases = record { cases = []; pending_set = [] }

-- The denial is returned, and nothing of it can be recorded.
evaluation_recorded_example :
    is_ok (
      build_ledger_events evidence_hash transaction
        (evaluate_transaction "case-1" 3 transaction no_cases half_down policies none).0)
    ≡ false
unfolding evaluate_transaction outcomes_of outcome_of reduce finish all_violations
evaluation_recorded_example =
    evaluation_recorded evidence_hash "case-1" 3 transaction no_cases half_down policies none refl

abbrev allowed : EvaluationResult
allowed = record {
  transaction_id = "txn-1";
  decision = allow;
  matched_policies = [];
  reasons = [];
  hitl_case_id = none;
  evaluated_at = 3;
}

allowed-is_ok : is_ok (build_ledger_events evidence_hash transaction allowed) ≡ true
unfolding build_ledger_events policy_events or_transaction_event transaction_event validate_event
    decision_result
allowed-is_ok = refl

build_ledger_events_exact_example :
    build_ledger_events evidence_hash transaction allowed
    ≡ ok (transaction_event evidence_hash transaction allowed ∷ [])
build_ledger_events_exact_example =
    build_ledger_events_exact evidence_hash transaction allowed allowed-is_ok

abbrev toy_details : Primitives (Details ℕ)
toy_details = record {
  sha256 = λ m. total m ∷ replicate 63 b'a';
  dumps = λ entries. length entries ∷ [];
  isoformat = λ t. "t";
  str_int = λ n. "n";
  json_mode = λ d. d;
  jsonb = λ d. d;
}

-- Every write goes through.
abbrev up : ℕ → Outside
up i = record { goes_through = true; id = i; now = naive 4 }

abbrev logged : List (Row (Details ℕ))
logged =
    (append_entry toy_details [] 0 (naive 4)
      (transaction_event evidence_hash transaction allowed)).0

log_evaluation-allowed :
    log_evaluation toy_details up evidence_hash transaction allowed [] ≡ ok logged
unfolding log_evaluation write_events build_ledger_events policy_events or_transaction_event
    transaction_event validate_event decision_result
log_evaluation-allowed = refl

abbrev digits : String × Value ℕ → ℕ
digits (k, mapping d) = d
digits (k, v) = 0

-- a column that renormalises the details
abbrev renormalising : Primitives ℕ
renormalising = record toy {
  dumps = λ entries. total (map digits entries) ∷ [];
  jsonb = λ d. d + 1;
}

verify_chain-append_entry_example :
    let (table, entry) = append_entry renormalising [] 1 (naive 10) (event_at 10) in
    ((verify_chain renormalising table none none).valid ≡ true) ↔ (
      compute_payload_digest renormalising (event_payload renormalising (event_at 10))
      ≡ compute_payload_digest renormalising (row_payload (record entry { details = 1 })))
verify_chain-append_entry_example =
    verify_chain-append_entry renormalising 1 (naive 10) (event_at 10)

renormalised :
    (verify_chain renormalising
      (append_entry renormalising [] 1 (naive 10) (event_at 10)).0
      none
      none).valid
    ≡ false
unfolding verify_chain append_entry in_window order_by_sequence anchor walk_rows next_ℤ row_breaks
    text_eq compute_payload_digest canonical_payload row_payload
renormalised = refl
