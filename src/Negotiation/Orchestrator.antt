-- ===== src/Negotiation/Orchestrator.antt =====
-- app/negotiation/orchestrator.py: one negotiation, with the queue of app/execution/hitl_queue.py that
-- it escalates to. The identifiers and the clock are arguments; the transcript of telemetry.py, whose
-- failures are swallowed, is left out.
use reg_engine_ai.Base.{
  ℕ, String, Bool, Option, none, some, List, [], ◌∷◌, Result, ok, ◌>>=◌, leb, length, is_empty,
  sadd, if◌then◌else◌,
}
use reg_engine_ai.Execution.Models.{
  Decision, allow, flagged, PolicyOutcome, TransactionPayload, Reason,
}
use reg_engine_ai.Execution.HitlQueue.{HitlQueue, enqueue}
use reg_engine_ai.Compiler.Facts.{Unicode}
use reg_engine_ai.Negotiation.Models.{
  Scores, NegotiationRound, ArbiterResolution, NegotiationStatus, by_consensus, arbitrated,
  escalated_to_hitl, NegotiationResult,
}
use reg_engine_ai.Negotiation.Agents.{DomainAgent, Confidences, scoped_outcomes}
use reg_engine_ai.Negotiation.Consensus.{ConsensusState, consensus_state, deadlocked, run_rounds}
use reg_engine_ai.Negotiation.Arbiter.{ArbiterError, last_round, arbitrate}

module _ {Score : Type 0} where
  unfoldable pub domains_in_scope :
      Unicode → List PolicyOutcome → List (DomainAgent Score) → List String
  unfolding scoped_outcomes sadd
  domains_in_scope uni outcomes [] = []
  domains_in_scope uni outcomes (a ∷ agents) =
      let rest = domains_in_scope uni outcomes agents in
      if is_empty (scoped_outcomes uni a outcomes) then rest else sadd a.domain rest

  unfoldable pub should_negotiate : Unicode → List PolicyOutcome → List (DomainAgent Score) → Bool
  unfolding domains_in_scope
  should_negotiate uni outcomes agents = leb 2 (length (domains_in_scope uni outcomes agents))

  module _ {Facts : Type 0} (score : Scores Score) (margin min_confidence : Score)
      (reason : List (NegotiationRound Score) → List Reason) (negotiation_id case_id : String)
      (now : ℕ) (transaction : TransactionPayload Facts) (outcomes : List PolicyOutcome)
      (queue : HitlQueue Facts) where
    abbrev result_of :
        NegotiationStatus
        → Decision
        → List (NegotiationRound Score)
        → Option (ArbiterResolution Score)
        → Option String
        → NegotiationResult Score
    result_of status decision rounds resolution case = record {
      negotiation_id = negotiation_id;
      transaction_id = transaction.transaction_id;
      status = status;
      final_decision = decision;
      rounds = rounds;
      arbiter_resolution = resolution;
      hitl_case_id = case;
    }

    -- `_consensus_result`: the decision of the last round
    abbrev pub consensus_result :
        List (NegotiationRound Score) → Option (NegotiationRound Score) → NegotiationResult Score
    consensus_result rounds none = result_of by_consensus allow rounds none none
    consensus_result rounds (some r) =
        result_of by_consensus r.tally.leading_decision rounds none none

    abbrev pub escalate : List (NegotiationRound Score) → NegotiationResult Score × HitlQueue Facts
    escalate rounds =
        let after = enqueue case_id now transaction (reason rounds) outcomes queue in
        (result_of escalated_to_hitl flagged rounds none (some after.0.case_id), after.1)

    abbrev pub settled_by :
        List (NegotiationRound Score)
        → Option (ArbiterResolution Score)
        → NegotiationResult Score × HitlQueue Facts
    settled_by rounds none = escalate rounds
    settled_by rounds (some resolution) =
        (result_of arbitrated resolution.resolved_decision rounds (some resolution) none, queue)

    unfoldable pub resolve_deadlock :
        List (NegotiationRound Score)
        → Result ArbiterError (NegotiationResult Score × HitlQueue Facts)
    unfolding arbitrate enqueue
    resolve_deadlock [] = ok (result_of by_consensus allow [] none none, queue)
    resolve_deadlock (r ∷ rs) = arbitrate score margin min_confidence (r ∷ rs) >>= λ resolution.
        ok (settled_by (r ∷ rs) resolution)

    abbrev pub conclude :
        List (NegotiationRound Score) × ConsensusState
        → Result ArbiterError (NegotiationResult Score × HitlQueue Facts)
    conclude (rounds, consensus_state) = ok (consensus_result rounds (last_round rounds), queue)
    conclude (rounds, deadlocked) = resolve_deadlock rounds

    unfoldable pub negotiate :
        Confidences Score
        → Unicode
        → List (DomainAgent Score)
        → Score
        → ℕ
        → Result ArbiterError (NegotiationResult Score × HitlQueue Facts)
    unfolding run_rounds resolve_deadlock last_round
    negotiate conf uni agents threshold max_rounds =
        conclude (run_rounds score margin conf uni agents threshold outcomes max_rounds)
