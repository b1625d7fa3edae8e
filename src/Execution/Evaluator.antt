-- ===== src/Execution/Evaluator.antt =====
-- app/execution/evaluator.py: one transaction against every policy of its entity type. OPA and the
-- policy lookup are functions; the kill switch store may be absent.
use reg_engine_ai.Base.{
  ℕ, String, Bool, true, false, Option, none, some, List, [], ◌∷◌, ◌++◌, map, Result, ok, err,
  is_empty, ◌==◌, str_eq, if◌then◌else◌,
}
use reg_engine_ai.Governance.KillSwitch.{KillSwitchStore, is_active_for}
use reg_engine_ai.Execution.Models.{
  Decision, allow, deny, flagged, TransactionPayload, PolicyOutcome, Reason, kill_switch_active,
  no_policy_applies, violation, undefined_policies, undefined_decision, EvaluationResult,
}
use reg_engine_ai.Execution.HitlQueue.{HitlQueue, enqueue}
use reg_engine_ai.Execution.Registry.{PolicyEntry}

-- The decision object of a compiled policy; a key that it lacks, or null, is `none`.
pub record OpaDecision : Type 0 where
  pub allow : Option Bool
  pub violations : Option (List String)
  pub circular_number : Option String
  pub clause_number : Option String
  pub rule_version : Option ℕ
  pub policy_sha256 : Option String
  pub canonical_facts_digest : Option String
  pub source_document_sha256 : Option String
  pub extracted_text_sha256 : Option String
  pub source_sha256 : Option String

pub data OpaEngineError : Type 0 where
  opa_failed : OpaEngineError

pub record InputDoc (Facts : Type 0) : Type 0 where
  pub entity_type : String
  pub facts : Facts

-- `result.get("allow", False)`, and `result.get("violations", []) or []`
abbrev pub bool_or_false : Option Bool → Bool
bool_or_false none = false
bool_or_false (some b) = b

abbrev pub list_or_nil : Option (List String) → List String
list_or_nil none = []
list_or_nil (some vs) = vs

-- `a or b` on optional values; an empty text counts as missing
abbrev or_else : Option String → Option String → Option String
or_else none b = b
or_else (some a) b = if str_eq a "" then b else some a

-- `entry.get("rule_version", 1)`, and the version of the decision if it is there and not 0
abbrev entry_version : Option ℕ → Option ℕ
entry_version none = some 1
entry_version (some n) = some n

abbrev version_or : Option ℕ → Option ℕ → Option ℕ
version_or none b = b
version_or (some n) b = if n == 0 then b else some n

-- The outcome of one policy: OPA failed, left it undefined, or decided it.
unfoldable pub outcome_of : PolicyEntry → Result OpaEngineError (Option OpaDecision) → PolicyOutcome
outcome_of e (err x) = record {
  rule_id = e.rule_id;
  package_name = e.package_name;
  allow = none;
  violations = [];
  circular_number = none;
  clause_number = none;
  rule_version = some 1;
  policy_sha256 = none;
  canonical_facts_digest = none;
  source_document_sha256 = none;
  extracted_text_sha256 = none;
  clause_sha256 = none;
}
outcome_of e (ok none) = record {
  rule_id = e.rule_id;
  package_name = e.package_name;
  allow = none;
  violations = [];
  circular_number = none;
  clause_number = none;
  rule_version = entry_version e.rule_version;
  policy_sha256 = e.policy_sha256;
  canonical_facts_digest = none;
  source_document_sha256 = none;
  extracted_text_sha256 = none;
  clause_sha256 = none;
}
outcome_of e (ok (some d)) = record {
  rule_id = e.rule_id;
  package_name = e.package_name;
  allow = some (bool_or_false d.allow);
  violations = list_or_nil d.violations;
  circular_number = d.circular_number;
  clause_number = d.clause_number;
  rule_version = version_or d.rule_version (entry_version e.rule_version);
  policy_sha256 = or_else d.policy_sha256 e.policy_sha256;
  canonical_facts_digest = or_else d.canonical_facts_digest e.canonical_facts_digest;
  source_document_sha256 = d.source_document_sha256;
  extracted_text_sha256 = d.extracted_text_sha256;
  clause_sha256 = d.source_sha256;
}

-- `[msg for o in outcomes for msg in o.violations]`
unfoldable pub all_violations : List PolicyOutcome → List String
all_violations [] = []
all_violations (o ∷ os) = o.violations ++ all_violations os

abbrev pub is_undefined : PolicyOutcome → Bool
is_undefined o = elim o.allow [ none ↦ true | some b ↦ false ]

-- `[o.rule_id for o in outcomes if o.allow is None]`
unfoldable pub undefined_rules : List PolicyOutcome → List String
undefined_rules [] = []
undefined_rules (o ∷ os) =
    if is_undefined o then o.rule_id ∷ undefined_rules os else undefined_rules os

abbrev reduce_undefined : List String → Decision × List Reason
reduce_undefined [] = (allow, [])
reduce_undefined (r ∷ rs) = (flagged, undefined_policies (r ∷ rs) ∷ [])

abbrev reduce_violations : List String → List String → Decision × List Reason
reduce_violations [] undefined = reduce_undefined undefined
reduce_violations (v ∷ vs) undefined = (deny, map violation (v ∷ vs))

-- `Evaluator._reduce`
unfoldable pub reduce : List PolicyOutcome → Decision × List Reason
reduce outcomes = reduce_violations (all_violations outcomes) (undefined_rules outcomes)

abbrev pub reasons_or_default : List Reason → List Reason
reasons_or_default [] = undefined_decision ∷ []
reasons_or_default (r ∷ rs) = r ∷ rs

abbrev pub switched_off : Option KillSwitchStore → Option String → Bool
switched_off none broker = false
switched_off (some s) broker = is_active_for s broker

module _ {Facts : Type 0} where
  abbrev pub input_doc : TransactionPayload Facts → InputDoc Facts
  input_doc t = record { entity_type = t.entity_type; facts = t.facts }

  unfoldable pub outcomes_of :
      (String → InputDoc Facts → Result OpaEngineError (Option OpaDecision))
      → InputDoc Facts
      → List PolicyEntry
      → List PolicyOutcome
  outcomes_of opa doc [] = []
  outcomes_of opa doc (e ∷ es) = outcome_of e (opa e.package_name doc) ∷ outcomes_of opa doc es

  -- `uuid4` gives `case_id`, the clock gives `now`.
  module _ (case_id : String) (now : ℕ) (t : TransactionPayload Facts) (q : HitlQueue Facts) where
    -- the end of `evaluate_transaction`, from the reduced decision
    unfoldable pub finish :
        List PolicyOutcome → Decision × List Reason → EvaluationResult × HitlQueue Facts
    finish outcomes (flagged, reasons) =
        let (c, q') = enqueue case_id now t (reasons_or_default reasons) outcomes q in
        (
          record {
            transaction_id = t.transaction_id;
            decision = flagged;
            matched_policies = outcomes;
            reasons = reasons;
            hitl_case_id = some c.case_id;
            evaluated_at = now;
          },
          q',
        )
    finish outcomes (decision, reasons) = (
      record {
        transaction_id = t.transaction_id;
        decision = decision;
        matched_policies = outcomes;
        reasons = reasons;
        hitl_case_id = none;
        evaluated_at = now;
      },
      q,
    )

    unfoldable pub halted : EvaluationResult × HitlQueue Facts
    halted =
        let (c, q') = enqueue case_id now t (kill_switch_active ∷ []) [] q in
        (
          record {
            transaction_id = t.transaction_id;
            decision = flagged;
            matched_policies = [];
            reasons = kill_switch_active ∷ [];
            hitl_case_id = some c.case_id;
            evaluated_at = now;
          },
          q',
        )

    unfoldable pub uncovered : EvaluationResult × HitlQueue Facts
    uncovered = (
      record {
        transaction_id = t.transaction_id;
        decision = allow;
        matched_policies = [];
        reasons = no_policy_applies ∷ [];
        hitl_case_id = none;
        evaluated_at = now;
      },
      q,
    )

    unfoldable pub evaluate_transaction :
        (String → InputDoc Facts → Result OpaEngineError (Option OpaDecision))
        → (String → List PolicyEntry)
        → Option KillSwitchStore
        → EvaluationResult × HitlQueue Facts
    unfolding halted uncovered
    evaluate_transaction opa lookup_policies kill_switch =
        let applicable : List PolicyEntry = lookup_policies t.entity_type in
        let outcomes : List PolicyOutcome = outcomes_of opa (input_doc t) applicable in
        if switched_off kill_switch t.broker_id
        then halted
        else if is_empty applicable
        then uncovered
        else finish outcomes (reduce outcomes)
