-- ===== src/Negotiation/Arbiter.antt =====
-- app/negotiation/arbiter.py: the two rules of precedence on the last round.
use reg_engine_ai.Base.{
  Bool, not, ◌&&◌, ◌||◌, Option, none, some, List, [], ◌∷◌, map, keep_if, codes, str_eq, Result, ok,
  err, if◌then◌else◌,
}
use reg_engine_ai.Execution.Models.{deny}
use reg_engine_ai.Backtest.Json.{text_lt}
use reg_engine_ai.Negotiation.Models.{
  Scores, AgentVerdict, WeightedVoteTally, NegotiationRound, explicit_deny_precedence,
  highest_weight_confidence, ArbiterResolution,
}
use reg_engine_ai.Negotiation.Agents.{has_value}
use reg_engine_ai.Negotiation.Consensus.{decides_same, against, tally_votes}

-- `max` of an empty list
pub data ArbiterError : Type 0 where
  max_of_empty : ArbiterError

module _ {Score : Type 0} where
  abbrev pub is_clause_deny : AgentVerdict Score → Bool
  is_clause_deny v =
      decides_same v.decision deny
      && has_value v.cited_circular_number
      && has_value v.cited_clause_number

  unfoldable pub last_round : List (NegotiationRound Score) → Option (NegotiationRound Score)
  last_round [] = none
  last_round (r ∷ []) = some r
  last_round (r ∷ s ∷ rs) = last_round (s ∷ rs)

  -- `max` with a key: the first of the largest
  abbrev pub best_of :
      (AgentVerdict Score → AgentVerdict Score → Bool)
      → AgentVerdict Score
      → List (AgentVerdict Score)
      → AgentVerdict Score
  best_of before best [] = best
  best_of before best (v ∷ vs) = best_of before (if before best v then v else best) vs

  module _ (score : Scores Score) where
    -- `(weight, confidence, agent_key)` and `(weight * confidence, agent_key)` in order
    abbrev pub weaker : AgentVerdict Score → AgentVerdict Score → Bool
    weaker v w =
        score.less v.weight w.weight
        || (score.same v.weight w.weight
            && (score.less v.confidence w.confidence
                || (score.same v.confidence w.confidence
                    && text_lt (codes v.agent_key) (codes w.agent_key))))

    abbrev less_powerful : AgentVerdict Score → AgentVerdict Score → Bool
    less_powerful v w =
        let p = score.times v.weight v.confidence in
        let q = score.times w.weight w.confidence in
        score.less p q || (score.same p q && text_lt (codes v.agent_key) (codes w.agent_key))

    abbrev pub deny_by :
        List (AgentVerdict Score) → List (AgentVerdict Score) → Option (ArbiterResolution Score)
    deny_by verdicts [] = none
    deny_by verdicts (v ∷ vs) =
        let winner = best_of weaker v vs in
        some record {
          resolved_decision = deny;
          precedence_rule = explicit_deny_precedence;
          cited_circular_number = winner.cited_circular_number;
          cited_clause_number = winner.cited_clause_number;
          overridden_agent_keys =
              map (λ w. w.agent_key)
                (keep_if (λ w. not (str_eq w.agent_key winner.agent_key)) verdicts);
          winning_confidence = winner.confidence;
        }

    unfoldable pub deny_precedence : NegotiationRound Score → Option (ArbiterResolution Score)
    unfolding text_lt
    deny_precedence r = deny_by r.verdicts (keep_if is_clause_deny r.verdicts)

    module _ (margin min_confidence : Score) where
      abbrev pub resolve_by :
          WeightedVoteTally Score
          → List (AgentVerdict Score)
          → List (AgentVerdict Score)
          → Result ArbiterError (Option (ArbiterResolution Score))
      resolve_by t verdicts [] = err max_of_empty
      resolve_by t verdicts (v ∷ vs) =
          let best = best_of less_powerful v vs in
          ok (
            some record {
              resolved_decision = t.leading_decision;
              precedence_rule = highest_weight_confidence;
              cited_circular_number = best.cited_circular_number;
              cited_clause_number = best.cited_clause_number;
              overridden_agent_keys = against t.leading_decision verdicts;
              winning_confidence = t.leading_share;
            })

      unfoldable pub weight_confidence :
          NegotiationRound Score → Result ArbiterError (Option (ArbiterResolution Score))
      unfolding tally_votes text_lt
      weight_confidence r =
          let t = tally_votes score margin r.verdicts in
          if score.less t.leading_share min_confidence
          then ok none
          else resolve_by t r.verdicts
              (keep_if (λ v. decides_same v.decision t.leading_decision) r.verdicts)

      abbrev pub prefer :
          Option (ArbiterResolution Score)
          → Result ArbiterError (Option (ArbiterResolution Score))
          → Result ArbiterError (Option (ArbiterResolution Score))
      prefer (some resolution) rest = ok (some resolution)
      prefer none rest = rest

      abbrev pub by_rules :
          Option (NegotiationRound Score) → Result ArbiterError (Option (ArbiterResolution Score))
      by_rules none = ok none
      by_rules (some r) = prefer (deny_precedence r) (weight_confidence r)

      unfoldable pub arbitrate :
          List (NegotiationRound Score) → Result ArbiterError (Option (ArbiterResolution Score))
      unfolding last_round deny_precedence weight_confidence
      arbitrate rounds = by_rules (last_round rounds)
