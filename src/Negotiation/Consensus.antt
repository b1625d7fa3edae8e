-- ===== src/Negotiation/Consensus.antt =====
-- app/negotiation/consensus.py: the weighted tally of a round and the loop over the rounds. The
-- margin of the tie-break is the argument `margin`.
use reg_engine_ai.Base.{
  ℕ, zero, suc, String, Bool, true, false, not, ◌&&◌, ◌||◌, Option, none, some, List, [], ◌∷◌, map,
  keep_if, all_of, if◌then◌else◌,
}
use reg_engine_ai.Execution.Models.{Decision, allow, deny, flagged, PolicyOutcome}
use reg_engine_ai.Compiler.Facts.{Unicode}
use reg_engine_ai.Negotiation.Models.{Scores, AgentVerdict, WeightedVoteTally, NegotiationRound}
use reg_engine_ai.Negotiation.Agents.{DomainAgent, Confidences, collect_verdicts}

pub data ConsensusState : Type 0 where
  consensus_state deadlocked : ConsensusState

abbrev pub decides_same : Decision → Decision → Bool
decides_same allow allow = true
decides_same deny deny = true
decides_same flagged flagged = true
decides_same _ _ = false

module _ {Score : Type 0} where
  -- `len({v.decision for v in verdicts}) == 1`
  unfoldable pub all_agree : List (AgentVerdict Score) → Bool
  all_agree [] = false
  all_agree (v ∷ vs) = all_of (λ w. decides_same v.decision w.decision) vs

  abbrev pub against : Decision → List (AgentVerdict Score) → List String
  against d vs = map (λ v. v.agent_key) (keep_if (λ v. not (decides_same v.decision d)) vs)

  module _ (score : Scores Score) (margin : Score) where
    abbrev pub power : AgentVerdict Score → Score
    power v = score.times v.weight v.confidence

    -- the loop of `tally_votes`, from what is summed up so far
    unfoldable pub power_of : Decision → Score → List (AgentVerdict Score) → Score
    power_of d sum [] = sum
    power_of d sum (v ∷ vs) =
        power_of d (if decides_same v.decision d then score.plus sum (power v) else sum) vs

    unfoldable pub total_power : Score → List (AgentVerdict Score) → Score
    total_power sum [] = sum
    total_power sum (v ∷ vs) = total_power (score.plus sum (power v)) vs

    -- `max(share, key=share.get)`: the first of the largest, in the order of `Decision`
    abbrev larger_share : (Decision → Score) → Decision → Decision → Decision
    larger_share share best d = if score.less (share best) (share d) then d else best

    abbrev leading : (Decision → Score) → Decision
    leading share = larger_share share (larger_share share allow deny) flagged

    -- a DENY close behind the leader wins
    abbrev tie_break : (Decision → Score) → Decision → Decision
    tie_break share d =
        if not (decides_same d deny)
          && score.less (score.minus (share d) (share deny)) margin
          && score.less score.zero (share deny)
        then deny
        else d

    abbrev tally_of : (Decision → Score) → Bool → WeightedVoteTally Score
    tally_of share agree = record {
      weighted_share = share;
      leading_decision = tie_break share (leading share);
      leading_share = share (tie_break share (leading share));
      unanimous = agree;
    }

    unfoldable pub tally_votes : List (AgentVerdict Score) → WeightedVoteTally Score
    unfolding power_of total_power all_agree
    tally_votes vs =
        let total = total_power score.zero vs in
        if score.same total score.zero
        then record {
          weighted_share = λ d. score.zero;
          leading_decision = flagged;
          leading_share = score.zero;
          unanimous = false;
        }
        else tally_of (λ d. score.over (power_of d score.zero vs) total) (all_agree vs)

    abbrev pub check_consensus : Score → WeightedVoteTally Score → Bool
    check_consensus threshold t = t.unanimous || not (score.less t.leading_share threshold)

    abbrev pub round_of : Score → ℕ → List (AgentVerdict Score) → NegotiationRound Score
    round_of threshold n vs =
        let t = tally_votes vs in
        record {
          round_number = n;
          verdicts = vs;
          tally = t;
          consensus_reached = check_consensus threshold t;
          dissenting_agents = against t.leading_decision vs;
        }

    abbrev pub after_round :
        NegotiationRound Score
        → List (NegotiationRound Score) × ConsensusState
        → List (NegotiationRound Score) × ConsensusState
    after_round r rest =
        if r.consensus_reached then (r ∷ [], consensus_state) else (r ∷ rest.0, rest.1)

    abbrev pub round_or_stop :
        Score
        → ℕ
        → List (AgentVerdict Score)
        → List (NegotiationRound Score) × ConsensusState
        → List (NegotiationRound Score) × ConsensusState
    round_or_stop threshold n [] rest = ([], deadlocked)
    round_or_stop threshold n (v ∷ vs) rest = after_round (round_of threshold n (v ∷ vs)) rest

    module _ (conf : Confidences Score) (uni : Unicode) (agents : List (DomainAgent Score))
        (threshold : Score) (outcomes : List PolicyOutcome) where
      -- the loop of `ConsensusEngine.run_rounds`: `left` rounds from the `n`th on
      unfoldable pub run_from :
          ℕ
          → ℕ
          → Option (List (AgentVerdict Score))
          → List (NegotiationRound Score) × ConsensusState
      unfolding collect_verdicts tally_votes
      run_from zero n prior = ([], deadlocked)
      run_from (suc left) n prior =
          let vs = collect_verdicts score conf uni outcomes prior agents in
          round_or_stop threshold n vs (run_from left (suc n) (some vs))

      unfoldable pub run_rounds : ℕ → List (NegotiationRound Score) × ConsensusState
      unfolding run_from
      run_rounds max_rounds = run_from max_rounds 1 none
