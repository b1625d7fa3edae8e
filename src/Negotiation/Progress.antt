-- ===== src/Negotiation/Progress.antt =====
-- A negotiation comes to an end with an answer.
use reg_engine_ai.Base.{
  ℕ, ◌≡◌, refl, ap, ◌∙◌, String, true, false, Option, none, some, List, [], ◌∷◌, keep_if, ok,
  Option-cases, Bool-cases, inl, inr,
}
use reg_engine_ai.Execution.Models.{Decision, PolicyOutcome, TransactionPayload, Reason}
use reg_engine_ai.Execution.HitlQueue.{HitlQueue}
use reg_engine_ai.Compiler.Facts.{Unicode}
use reg_engine_ai.Negotiation.Models.{
  Scores, AgentVerdict, NegotiationRound, ArbiterResolution, NegotiationResult,
}
use reg_engine_ai.Negotiation.Agents.{DomainAgent, Confidences}
use reg_engine_ai.Negotiation.Consensus.{
  ConsensusState, consensus_state, deadlocked, decides_same, power_of, total_power, tally_votes,
  run_rounds,
}
use reg_engine_ai.Negotiation.Arbiter.{
  last_round, deny_precedence, weight_confidence, resolve_by, arbitrate,
}
use reg_engine_ai.Negotiation.Orchestrator.{resolve_deadlock, settled_by, conclude, negotiate}

-- What the arithmetic of the shares has to satisfy here: a share of nothing is nothing, and the bar of
-- the arbiter is positive.
pub record IsBarred {Score : Type 0} (score : Scores Score) (min_confidence : Score) : Type 0 where
  pub zero_over : (t : Score) → score.over score.zero t ≡ score.zero
  pub positive : score.less score.zero min_confidence ≡ true

module _ {Score : Type 0} where
  pick_none :
      (d : Decision) (score : Scores Score) (margin sum : Score) (vs : List (AgentVerdict Score))
      → keep_if (λ v. decides_same v.decision d) vs ≡ []
      → power_of score margin d sum vs ≡ sum
  unfolding power_of
  pick_none d score margin sum [] h = refl
  pick_none d score margin sum (v ∷ vs) h = elim (Bool-cases (decides_same v.decision d)) [
    | inl e ↦ absurd (cc (rw e at h))
    | inr e ↦ rw e (pick_none d score margin sum vs (rw e at h))
  ]

  module _ (score : Scores Score) (margin min_confidence : Score)
      (bar : IsBarred score min_confidence) where
    leading_share_lem :
        (vs : List (AgentVerdict Score))
        → score.same (total_power score margin score.zero vs) score.zero ≡ false
        → (tally_votes score margin vs).leading_share
          ≡ score.over
              (power_of score margin (tally_votes score margin vs).leading_decision score.zero vs)
              (total_power score margin score.zero vs)
    unfolding tally_votes
    leading_share_lem vs e = rw e refl

    idle :
        (vs : List (AgentVerdict Score))
        → score.same (total_power score margin score.zero vs) score.zero ≡ true
        → (tally_votes score margin vs).leading_share ≡ score.zero
    unfolding tally_votes
    idle vs e = rw e refl

    resolve_by_returns :
        (r : NegotiationRound Score) (vs : List (AgentVerdict Score))
        → (vs ≡ [] → ⊥)
        → (o : Option (ArbiterResolution Score)) × (resolve_by score margin min_confidence
              (tally_votes score margin r.verdicts)
              r.verdicts
              vs
            ≡ ok o)
    resolve_by_returns r [] h = absurd (h refl)
    resolve_by_returns r (v ∷ vs) h = (_, refl)

    -- A decision that nobody voted for has no share.
    unvoted :
        (vs : List (AgentVerdict Score))
        → keep_if (λ v. decides_same v.decision (tally_votes score margin vs).leading_decision) vs
          ≡ []
        → (tally_votes score margin vs).leading_share ≡ score.zero
    unvoted vs h =
        let total = total_power score margin score.zero vs in
        let d = (tally_votes score margin vs).leading_decision in
        elim (Bool-cases (score.same total score.zero)) [
          | inl e ↦ idle vs e
          | inr e ↦
              leading_share_lem vs e
              ∙ ap (λ x. score.over x total) (pick_none d score margin score.zero vs h)
              ∙ bar.zero_over total
        ]

    weight_confidence_returns :
        (r : NegotiationRound Score)
        → (o : Option (ArbiterResolution Score)) × (weight_confidence score margin min_confidence r
            ≡ ok o)
    unfolding weight_confidence
    weight_confidence_returns r =
        let t = tally_votes score margin r.verdicts in
        elim (Bool-cases (score.less t.leading_share min_confidence)) [
          | inl e ↦ (none, rw e refl)
          | inr e ↦ rw e (
              resolve_by_returns r
                (keep_if (λ v. decides_same v.decision t.leading_decision) r.verdicts)
                (λ k. absurd (cc (unvoted r.verdicts k, e, bar.positive))))
        ]

    arbitrate_returns :
        (rounds : List (NegotiationRound Score))
        → (o : Option (ArbiterResolution Score)) × (arbitrate score margin min_confidence rounds
            ≡ ok o)
    unfolding arbitrate
    arbitrate_returns rounds = elim (Option-cases (last_round rounds)) [
      | inl e ↦ (none, rw e refl)
      | inr (r, e) ↦ elim (Option-cases (deny_precedence score r)) [
        | inl d ↦ rw (e, d) (weight_confidence_returns r)
        | inr (x, d) ↦ (some x, rw (e, d) refl)
      ]
    ]

    module _ {Facts : Type 0} (reason : List (NegotiationRound Score) → List Reason)
        (negotiation_id case_id : String) (now : ℕ) (transaction : TransactionPayload Facts)
        (outcomes : List PolicyOutcome) (queue : HitlQueue Facts) where
      concludes :
          (o : List (NegotiationRound Score) × ConsensusState)
          → (x : NegotiationResult Score × HitlQueue Facts) × (conclude score margin min_confidence
                reason negotiation_id case_id now transaction outcomes queue o
              ≡ ok x)
      unfolding resolve_deadlock
      concludes (rounds, consensus_state) = (_, refl)
      concludes ([], deadlocked) = (_, refl)
      concludes (r ∷ rs, deadlocked) =
          let (o, e) = arbitrate_returns (r ∷ rs) in
          (
            settled_by score margin min_confidence reason negotiation_id case_id now transaction
                outcomes queue (r ∷ rs) o,
            rw e refl,
          )

      -- Every negotiation gives a result, by consensus, by arbitration or by escalation: the arbiter never
      -- looks for the best of no verdicts, when the share of no power is zero and its bar is positive.
      pub negotiate_returns :
          (conf : Confidences Score) (uni : Unicode) (agents : List (DomainAgent Score))
          (threshold : Score) (max_rounds : ℕ)
          → (x : NegotiationResult Score × HitlQueue Facts) × (negotiate score margin min_confidence
                reason negotiation_id case_id now transaction outcomes queue conf uni agents
                threshold max_rounds
              ≡ ok x)
      unfolding negotiate
      negotiate_returns conf uni agents threshold max_rounds =
          concludes (run_rounds score margin conf uni agents threshold outcomes max_rounds)
