-- ===== src/Execution/Decisions.antt =====
-- What an evaluation decides, and when a human gets the transaction.
use reg_engine_ai.Base.{
  ℕ, String, ◌≡◌, refl, ◌≢◌, Bool, true, false, not, ◌&&◌, Option, none, some, List, [], ◌∷◌, arith,
  Result, ok, err, is_empty, is_empty-append, any_of, Bool-cases, inl, inr, if◌then◌else◌,
}
use reg_engine_ai.Governance.KillSwitch.{KillSwitchStore}
use reg_engine_ai.Execution.Models.{
  Decision, allow, deny, flagged, TransactionPayload, PolicyOutcome, Reason, EvaluationResult,
}
use reg_engine_ai.Execution.HitlQueue.{HitlQueue, enqueue}
use reg_engine_ai.Execution.Queueing.{Adds, pending_case, enqueue-Adds}
use reg_engine_ai.Execution.Registry.{PolicyEntry}
use reg_engine_ai.Execution.Evaluator.{
  OpaDecision, OpaEngineError, InputDoc, input_doc, outcome_of, outcomes_of, all_violations,
  is_undefined, undefined_rules, reasons_or_default, halted, uncovered, switched_off, reduce,
  finish, evaluate_transaction, bool_or_false, list_or_nil,
}

abbrev pub has_violation : PolicyOutcome → Bool
has_violation o = not (is_empty o.violations)

all_violations-nil :
    (os : List PolicyOutcome) → is_empty (all_violations os) ≡ not (any_of has_violation os)
unfolding all_violations
all_violations-nil [] = refl
all_violations-nil (o ∷ os) = rw is_empty-append (ground (arith, all_violations-nil os))

undefined_rules-nil :
    (os : List PolicyOutcome) → is_empty (undefined_rules os) ≡ not (any_of is_undefined os)
unfolding undefined_rules
undefined_rules-nil [] = refl
undefined_rules-nil (o ∷ os) = ground (arith, undefined_rules-nil os)

-- The decision over the outcomes: a violation of any policy denies; without one, any undefined
-- policy flags; and everything else is allowed.
pub reduce_exact :
    (os : List PolicyOutcome)
    → (reduce os).0 ≡ (
        if any_of has_violation os then deny else if any_of is_undefined os then flagged else allow)
unfolding reduce
reduce_exact os = ground (arith, all_violations-nil os, undefined_rules-nil os)

abbrev pub is_flagged : Decision → Bool
is_flagged flagged = true
is_flagged _ = false

abbrev pub is_allowed : Decision → Bool
is_allowed allow = true
is_allowed _ = false

-- OPA failed, or left the decision undefined.
abbrev pub is_unresolved : Result OpaEngineError (Option OpaDecision) → Bool
is_unresolved (err e) = true
is_unresolved (ok none) = true
is_unresolved (ok (some d)) = false

-- OPA answered with a decision object that neither allows nor names a violation.
abbrev pub is_silent_denial : Result OpaEngineError (Option OpaDecision) → Bool
is_silent_denial (err e) = false
is_silent_denial (ok none) = false
is_silent_denial (ok (some d)) = not (bool_or_false d.allow) && is_empty (list_or_nil d.violations)

module _ {Facts : Type 0} (case_id : String) (now : ℕ) (t : TransactionPayload Facts)
    (q : HitlQueue Facts)
    (opa : String → InputDoc Facts → Result OpaEngineError (Option OpaDecision))
    (lookup_policies : String → List PolicyEntry) where
  abbrev pub answer : PolicyEntry → Result OpaEngineError (Option OpaDecision)
  answer e = opa e.package_name (input_doc t)

  finish-decision :
      (os : List PolicyOutcome) (d : Decision × List Reason)
      → (finish case_id now t q os d).0.decision ≡ d.0
  unfolding finish
  finish-decision os (allow, rs) = refl
  finish-decision os (deny, rs) = refl
  finish-decision os (flagged, rs) = refl

  finish-matched :
      (os : List PolicyOutcome) (d : Decision × List Reason)
      → (finish case_id now t q os d).0.matched_policies ≡ os
  unfolding finish
  finish-matched os (allow, rs) = refl
  finish-matched os (deny, rs) = refl
  finish-matched os (flagged, rs) = refl

  undefined_outcomes :
      (es : List PolicyEntry)
      → any_of is_undefined (outcomes_of opa (input_doc t) es)
        ≡ any_of (λ e. is_unresolved (answer e)) es
  unfolding outcomes_of outcome_of
  undefined_outcomes [] = refl
  undefined_outcomes (e ∷ es) = ground (arith, undefined_outcomes es)

  silent_outcomes :
      (es : List PolicyEntry)
      → any_of (λ e. not (is_silent_denial (answer e))) es ≡ false
      → (any_of is_undefined (outcomes_of opa (input_doc t) es) ≡ false)
        × (any_of has_violation (outcomes_of opa (input_doc t) es) ≡ false)
  unfolding outcomes_of outcome_of
  silent_outcomes [] h = (refl, refl)
  silent_outcomes (e ∷ es) h = ground (arith, silent_outcomes es)

  finish_queues :
      (os : List PolicyOutcome) (d : Decision × List Reason)
      → let (r, q') = finish case_id now t q os d in
        (r.hitl_case_id ≡ (if is_flagged r.decision then some case_id else none))
        × Adds
            (is_flagged r.decision)
            (pending_case case_id now t (reasons_or_default r.reasons) r.matched_policies)
            q
            q'
  unfolding finish
  finish_queues os (allow, rs) = (refl, λ k. (refl, refl))
  finish_queues os (deny, rs) = (refl, λ k. (refl, refl))
  finish_queues os (flagged, rs) =
      (unfold enqueue in refl, enqueue-Adds case_id now t (reasons_or_default rs) os q)

  halted_queues :
      let (r, q') = halted case_id now t q in
      (r.hitl_case_id ≡ (if is_flagged r.decision then some case_id else none))
      × Adds
          (is_flagged r.decision)
          (pending_case case_id now t (reasons_or_default r.reasons) r.matched_policies)
          q
          q'
  unfolding halted
  halted_queues = (unfold enqueue in refl, enqueue-Adds case_id now t _ [] q)

  uncovered_queues :
      let (r, q') = uncovered case_id now t q in
      (r.hitl_case_id ≡ (if is_flagged r.decision then some case_id else none))
      × Adds
          (is_flagged r.decision)
          (pending_case case_id now t (reasons_or_default r.reasons) r.matched_policies)
          q
          q'
  unfolding uncovered
  uncovered_queues = (refl, λ k. (refl, refl))

  -- A transaction has the new case id exactly when it is flagged. Then the queue gives, under that
  -- id, a pending case with the transaction, the reasons (the standing one if
  -- there are none) and the outcomes, and lists the id as
  -- pending; every other id, and every id if it is not flagged, gives what it gave before and is
  -- listed as it was.
  pub evaluate_transaction_queues :
      (kill_switch : Option KillSwitchStore)
      → let (r, q') = evaluate_transaction case_id now t q opa lookup_policies kill_switch in
        (r.hitl_case_id ≡ (if is_flagged r.decision then some case_id else none))
        × Adds
            (is_flagged r.decision)
            (pending_case case_id now t (reasons_or_default r.reasons) r.matched_policies)
            q
            q'
  unfolding evaluate_transaction
  evaluate_transaction_queues kill_switch =
      let os : List PolicyOutcome = outcomes_of opa (input_doc t) (lookup_policies t.entity_type) in
      elim (Bool-cases (switched_off kill_switch t.broker_id)) [
        | inl on ↦ rw on halted_queues
        | inr off ↦ elim (Bool-cases (is_empty (lookup_policies t.entity_type))) [
          | inl none_apply ↦ rw (off, none_apply) uncovered_queues
          | inr some_apply ↦ rw (off, some_apply) (finish_queues os (reduce os))
        ]
      ]

  -- No outcome of an allowed transaction is undefined.
  pub allow_defined :
      (kill_switch : Option KillSwitchStore)
      → let r : EvaluationResult =
          (evaluate_transaction case_id now t q opa lookup_policies kill_switch).0 in
        is_allowed r.decision && any_of is_undefined r.matched_policies ≡ false
  unfolding evaluate_transaction
  allow_defined kill_switch =
      let os : List PolicyOutcome = outcomes_of opa (input_doc t) (lookup_policies t.entity_type) in
      ground (arith, finish-decision os (reduce os), finish-matched os (reduce os), reduce_exact os)

  -- A transaction with a policy that OPA fails on or leaves undefined is never allowed.
  pub unresolved_not_allowed :
      (kill_switch : Option KillSwitchStore)
      → any_of (λ e. is_unresolved (answer e)) (lookup_policies t.entity_type) ≡ true
      → (evaluate_transaction case_id now t q opa lookup_policies kill_switch).0.decision ≢ allow
  unfolding evaluate_transaction
  unresolved_not_allowed kill_switch h =
      let os : List PolicyOutcome = outcomes_of opa (input_doc t) (lookup_policies t.entity_type) in
      ground (
        arith,
        finish-decision os (reduce os),
        reduce_exact os,
        undefined_outcomes (lookup_policies t.entity_type),
      )

  -- With no kill switch, a transaction that every applicable policy answers with "not allowed" and
  -- no violation is allowed.
  pub silent_denial_allowed :
      any_of (λ e. not (is_silent_denial (answer e))) (lookup_policies t.entity_type) ≡ false
      → (evaluate_transaction case_id now t q opa lookup_policies none).0.decision ≡ allow
  unfolding evaluate_transaction
  silent_denial_allowed h =
      let os : List PolicyOutcome = outcomes_of opa (input_doc t) (lookup_policies t.entity_type) in
      ground (
        arith,
        finish-decision os (reduce os),
        reduce_exact os,
        silent_outcomes (lookup_policies t.entity_type) h,
      )
