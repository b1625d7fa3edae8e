-- ===== src/Execution/Tests.antt =====
-- The evaluator, the queue, the registry and the cache at concrete inputs.
use reg_engine_ai.Base.{
  ℕ, ◌+◌, ◌≤◌, ◌<◌, ◌≡◌, ◌≢◌, refl, ◌⊎◌, String, true, false, Option, none, some, List, [], ◌∷◌,
  Result, ok, err, lookup, insert, sadd, srem, is_member, arith, if◌then◌else◌,
}
use reg_engine_ai.Governance.KillSwitch.{KillSwitchStore, is_active_for}
use reg_engine_ai.Execution.Models.{
  allow, TransactionPayload, PolicyOutcome, HitlCase, approved, undefined_policies,
}
use reg_engine_ai.Execution.HitlQueue.{HitlQueue, enqueue, get, resolve}
use reg_engine_ai.Execution.Registry.{PolicyEntry, Registry}
use reg_engine_ai.Execution.Cache
use reg_engine_ai.Execution.Cache.{PolicyCache, CacheEntry}
use reg_engine_ai.Execution.Evaluator.{
  OpaDecision, OpaEngineError, opa_failed, InputDoc, outcomes_of, outcome_of, reduce, finish,
  all_violations, reasons_or_default, undefined_rules, evaluate_transaction,
}
use reg_engine_ai.Execution.Decisions.{
  is_flagged, evaluate_transaction_queues, unresolved_not_allowed, silent_denial_allowed,
}
use reg_engine_ai.Execution.Queueing.{Adds, pending_case, IsConsistent}
use reg_engine_ai.Execution.Lookups.{HasUniqueKeys}
use reg_engine_ai.Execution.Staleness.{IsHonest, policies_for_staleness}

abbrev transaction : TransactionPayload ℕ
transaction = record {
  transaction_id = "txn-1";
  entity_type = "Stockbroker";
  facts = 7;
  broker_id = some "broker-1";
  callback_url = none;
}

abbrev entry : String → PolicyEntry
entry id = record {
  rule_id = id;
  package_name = id;
  rule_version = some 2;
  policy_sha256 = none;
  canonical_facts_digest = none;
}

abbrev silent : OpaDecision
silent = record {
  allow = some false;
  violations = some [];
  circular_number = none;
  clause_number = none;
  rule_version = none;
  policy_sha256 = none;
  canonical_facts_digest = none;
  source_document_sha256 = none;
  extracted_text_sha256 = none;
  source_sha256 = none;
}

abbrev opa_down : String → InputDoc ℕ → Result OpaEngineError (Option OpaDecision)
opa_down package_name doc = err opa_failed

abbrev opa_silent : String → InputDoc ℕ → Result OpaEngineError (Option OpaDecision)
opa_silent package_name doc = ok (some silent)

abbrev two_policies : String → List PolicyEntry
two_policies entity_type = entry "rule-1" ∷ entry "rule-2" ∷ []

abbrev empty_queue : HitlQueue ℕ
empty_queue = record { cases = []; pending_set = [] }

abbrev global_stop : KillSwitchStore
global_stop = record {
  global_state = some (record { reason = "drill"; activated_by = "ops"; activated_at = 1 });
  tenant_states = [];
  active_tenants = [];
}

evaluate-opa_down :
    (evaluate_transaction "case-1" 3 transaction empty_queue opa_down two_policies none).0.reasons
    ≡ undefined_policies ("rule-1" ∷ "rule-2" ∷ []) ∷ []
unfolding evaluate_transaction outcomes_of outcome_of reduce finish enqueue all_violations
    undefined_rules
evaluate-opa_down = refl

global_stop_active : is_active_for global_stop transaction.broker_id ≡ true
unfolding is_active_for
global_stop_active = refl

evaluate_transaction_queues_example :
    let (r, q') =
      evaluate_transaction "case-1" 3 transaction empty_queue opa_down two_policies none in
    (r.hitl_case_id ≡ (if is_flagged r.decision then some "case-1" else none))
    × Adds
        (is_flagged r.decision)
        (pending_case "case-1" 3 transaction (reasons_or_default r.reasons) r.matched_policies)
        empty_queue
        q'
evaluate_transaction_queues_example =
    evaluate_transaction_queues "case-1" 3 transaction empty_queue opa_down two_policies none

unresolved_not_allowed_example :
    (evaluate_transaction "case-1" 3 transaction empty_queue opa_down two_policies none).0.decision
    ≢ allow
unresolved_not_allowed_example =
    unresolved_not_allowed "case-1" 3 transaction empty_queue opa_down two_policies none refl

silent_denial_allowed_example :
    (evaluate_transaction "case-1" 3 transaction empty_queue opa_silent two_policies
      none).0.decision
    ≡ allow
silent_denial_allowed_example =
    silent_denial_allowed "case-1" 3 transaction empty_queue opa_silent two_policies refl

abbrev outcomes : List PolicyOutcome
outcomes = outcome_of (entry "rule-1") (err opa_failed) ∷ []

empty_queue-IsConsistent : IsConsistent empty_queue
unfolding is_member get lookup
empty_queue-IsConsistent k = refl

abbrev one_case : HitlQueue ℕ
one_case = (enqueue "case-1" 3 transaction [] [] empty_queue).1

abbrev closed_case : HitlCase ℕ
closed_case = record {
  case_id = "case-1";
  transaction = transaction;
  reason = [];
  matched_policies = [];
  status = approved;
  created_at = 3;
  resolved_at = some 9;
  resolved_by = some "officer-1";
  resolution_notes = none;
}

abbrev closed_queue : HitlQueue ℕ
closed_queue = record { cases = ("case-1", closed_case) ∷ []; pending_set = [] }

resolve-one_case :
    resolve "case-1" approved "officer-1" none 9 one_case ≡ ok (closed_case, closed_queue)
unfolding resolve enqueue get lookup insert sadd srem
resolve-one_case = refl

abbrev registry : Registry
registry = ("Stockbroker", entry "rule-1" ∷ []) ∷ ("*", entry "rule-2" ∷ []) ∷ []

registry-HasUniqueKeys : HasUniqueKeys registry
unfolding lookup
registry-HasUniqueKeys = (refl, (refl, tt))

abbrev history : ℕ → String → List PolicyEntry
history time entity_type = entry "rule-1" ∷ []

abbrev cold : PolicyCache
cold = record { ttl = 30; entries = []; hits = 0; misses = 0 }

cold-IsHonest : IsHonest history 5 cold
unfolding lookup
cold-IsHonest k e found = ground arith

policies_for_staleness_example :
    let (found, c') = Cache.policies_for (history 5) "Stockbroker" 5 cold in
    ((read : ℕ) × (found ≡ history read "Stockbroker")
      × (read ≤ 5)
      × ((5 < read + 30) ⊎ (read ≡ 5)))
    × IsHonest history 5 c'
policies_for_staleness_example = policies_for_staleness history "Stockbroker" 5 cold cold-IsHonest
