-- ===== src/Negotiation/Models.antt =====
-- app/negotiation/models.py. `Score` is the type of the weights, confidences and shares, and `Scores`
-- what the code computes with them. A rationale is kept as data, before it is printed; the reasoning
-- tree, which is a rendering of the rounds, is left out.
use reg_engine_ai.Base.{ℕ, String, Bool, Option, List}
use reg_engine_ai.Execution.Models.{Decision}

pub record Scores (Score : Type 0) : Type 0 where
  pub zero : Score
  pub plus : Score → Score → Score
  pub minus : Score → Score → Score
  pub times : Score → Score → Score
  pub over : Score → Score → Score
  pub less : Score → Score → Bool
  pub same : Score → Score → Bool

pub data Rationale : Type 0 where
  violations_found : List String → Rationale
  undefined_results all_passed : ℕ → Rationale
  conceded : Rationale → Rationale

pub record AgentVerdict (Score : Type 0) : Type 0 where
  pub agent_key : String
  pub domain : String
  pub decision : Decision
  pub confidence : Score
  pub weight : Score
  pub cited_circular_number : Option String
  pub cited_clause_number : Option String
  pub rationale : Rationale
  pub matched_rule_ids : List String

pub record WeightedVoteTally (Score : Type 0) : Type 0 where
  pub weighted_share : Decision → Score
  pub leading_decision : Decision
  pub leading_share : Score
  pub unanimous : Bool

pub record NegotiationRound (Score : Type 0) : Type 0 where
  pub round_number : ℕ
  pub verdicts : List (AgentVerdict Score)
  pub tally : WeightedVoteTally Score
  pub consensus_reached : Bool
  pub dissenting_agents : List String

pub data PrecedenceRule : Type 0 where
  explicit_deny_precedence highest_weight_confidence : PrecedenceRule

pub record ArbiterResolution (Score : Type 0) : Type 0 where
  pub resolved_decision : Decision
  pub precedence_rule : PrecedenceRule
  pub cited_circular_number : Option String
  pub cited_clause_number : Option String
  pub overridden_agent_keys : List String
  pub winning_confidence : Score

pub data NegotiationStatus : Type 0 where
  by_consensus arbitrated escalated_to_hitl : NegotiationStatus

pub record NegotiationResult (Score : Type 0) : Type 0 where
  pub negotiation_id : String
  pub transaction_id : String
  pub status : NegotiationStatus
  pub final_decision : Decision
  pub rounds : List (NegotiationRound Score)
  pub arbiter_resolution : Option (ArbiterResolution Score)
  pub hitl_case_id : Option String
