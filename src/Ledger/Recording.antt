-- ===== src/Ledger/Recording.antt =====
-- What the ledger records of an evaluation.
use reg_engine_ai.Base.{
  ℕ, String, ◌≡◌, refl, Bool, true, false, not, ◌&&◌, Option, List, [], ◌∷◌, map, arith, Result, ok,
  err, ◌>>=◌, any_of, is_empty, str_eq, if◌then◌else◌,
}
use reg_engine_ai.Governance.KillSwitch.{KillSwitchStore}
use reg_engine_ai.Execution.Models.{
  Decision, deny, TransactionPayload, PolicyOutcome, EvaluationResult,
}
use reg_engine_ai.Execution.HitlQueue.{HitlQueue}
use reg_engine_ai.Execution.Registry.{PolicyEntry}
use reg_engine_ai.Execution.Evaluator.{
  OpaDecision, OpaEngineError, InputDoc, is_undefined, evaluate_transaction,
}
use reg_engine_ai.Execution.Decisions.{is_flagged, evaluate_transaction_queues, allow_defined}
use reg_engine_ai.Ledger.Models.{ValidationError, review_id_required, truthy, validate_event}
use reg_engine_ai.Ledger.Integration.{
  EvidenceHash, Event, outcome_result, decision_result, policy_event, transaction_event,
  policy_events, or_transaction_event, build_ledger_events,
}

abbrev pub is_ok {ℓ κ} : {E : Type ℓ} {A : Type κ} → Result E A → Bool
is_ok (ok a) = true
is_ok (err e) = false

abbrev pub is_denied : Decision → Bool
is_denied deny = true
is_denied _ = false

module _ {Facts : Type 0} (h : EvidenceHash Facts) (t : TransactionPayload Facts)
    (r : EvaluationResult) where
  policy_event_valid :
      (o : PolicyOutcome)
      → validate_event (policy_event h t r o) ≡ (
          if is_undefined o && not (truthy r.hitl_case_id)
          then err review_id_required
          else ok (policy_event h t r o))
  unfolding validate_event policy_event outcome_result
  policy_event_valid o = ground arith

  abbrev all_or_raise : Bool → List PolicyOutcome → Result ValidationError (List (Event Facts))
  all_or_raise true os = err review_id_required
  all_or_raise false os = ok (map (policy_event h t r) os)

  -- The loop raises, or builds one event for each outcome.
  policy_events_lem :
      (os : List PolicyOutcome)
      → policy_events h t r os
        ≡ all_or_raise (any_of is_undefined os && not (truthy r.hitl_case_id)) os
  unfolding policy_events
  policy_events_lem [] = refl
  policy_events_lem (o ∷ os) = ground (arith, policy_event_valid o, policy_events_lem os)

  transaction_event_ok :
      is_ok (validate_event (transaction_event h t r))
      ≡ not (is_flagged r.decision && not (truthy r.hitl_case_id))
  unfolding validate_event transaction_event decision_result
  transaction_event_ok = ground arith

  build_from_ok :
      (os : List PolicyOutcome)
      → is_ok (policy_events h t r os >>= or_transaction_event h t r) ≡ (
          if is_empty os
          then not (is_flagged r.decision && not (truthy r.hitl_case_id))
          else not (any_of is_undefined os && not (truthy r.hitl_case_id)))
  unfolding or_transaction_event
  build_from_ok [] = rw (policy_events_lem []) (ground (arith, transaction_event_ok))
  build_from_ok (o ∷ os) = rw (policy_events_lem (o ∷ os)) (ground arith)

  build_ok : is_ok (build_ledger_events h t r) ≡ (
      if is_empty r.matched_policies
      then not (is_flagged r.decision && not (truthy r.hitl_case_id))
      else not (any_of is_undefined r.matched_policies && not (truthy r.hitl_case_id)))
  unfolding build_ledger_events
  build_ok = build_from_ok r.matched_policies

  built_from :
      (os : List PolicyOutcome)
      → is_ok (policy_events h t r os >>= or_transaction_event h t r) ≡ true
      → (policy_events h t r os >>= or_transaction_event h t r)
        ≡ ok (if is_empty os then transaction_event h t r ∷ [] else map (policy_event h t r) os)
  unfolding or_transaction_event validate_event
  built_from [] e = rw (policy_events_lem []) (ground (arith, e, policy_events_lem []))
  built_from (o ∷ os) e =
      rw (policy_events_lem (o ∷ os)) (ground (arith, e, policy_events_lem (o ∷ os)))

  -- Where building the events raises nothing, there is one event for each policy outcome, in their
  -- order, and one event of the whole transaction where there is no outcome: never none.
  pub build_ledger_events_exact :
      is_ok (build_ledger_events h t r) ≡ true
      → build_ledger_events h t r
        ≡ ok (
            if is_empty r.matched_policies
            then transaction_event h t r ∷ []
            else map (policy_event h t r) r.matched_policies)
  unfolding build_ledger_events
  build_ledger_events_exact e = built_from r.matched_policies e

-- Whatever OPA, the policies and the kill switch say, and with a case id that is not empty: the
-- events of an evaluation are built, unless the transaction is denied while OPA failed on another
-- of its policies or left it undefined; then building them raises.
pub evaluation_recorded :
    {Facts : Type 0} (h : EvidenceHash Facts) (case_id : String) (now : ℕ)
    (t : TransactionPayload Facts) (q : HitlQueue Facts)
    (opa : String → InputDoc Facts → Result OpaEngineError (Option OpaDecision))
    (lookup_policies : String → List PolicyEntry) (kill_switch : Option KillSwitchStore)
    → str_eq case_id "" ≡ false
    → let r : EvaluationResult =
        (evaluate_transaction case_id now t q opa lookup_policies kill_switch).0 in
      is_ok (build_ledger_events h t r)
      ≡ not (is_denied r.decision && any_of is_undefined r.matched_policies)
unfolding truthy
evaluation_recorded h case_id now t q opa lookup_policies kill_switch id =
    let r : EvaluationResult =
      (evaluate_transaction case_id now t q opa lookup_policies kill_switch).0 in
    ground (
      arith,
      build_ok h t r,
      (evaluate_transaction_queues case_id now t q opa lookup_policies kill_switch).0,
      allow_defined case_id now t q opa lookup_policies kill_switch,
    )
