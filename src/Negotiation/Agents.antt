-- ===== src/Negotiation/Agents.antt =====
-- app/negotiation/agents.py: a domain agent votes on the outcomes that its keywords pick out. The
-- numbers that the file writes out are the fields of `Confidences`.
use reg_engine_ai.Base.{
  ℕ, String, Bool, true, false, not, ◌&&◌, ◌||◌, Option, none, some, List, [], ◌∷◌, ◌++◌, map,
  any_of, keep_if, is_empty, length, ◌==◌, codes, str_eq, if◌then◌else◌,
}
use reg_engine_ai.Execution.Models.{Decision, allow, deny, flagged, PolicyOutcome}
use reg_engine_ai.Backtest.Json.{contains_text}
use reg_engine_ai.Compiler.Facts.{Unicode, lower_text}
use reg_engine_ai.Negotiation.Models.{
  Scores, Rationale, violations_found, undefined_results, all_passed, conceded, AgentVerdict,
}

pub record DomainAgent (Score : Type 0) : Type 0 where
  pub agent_key : String
  pub domain : String
  pub weight : Score
  pub domain_keywords : List String

-- 0.9, 0.4, 0.85, and the two constants of a concession
pub record Confidences (Score : Type 0) : Type 0 where
  pub on_deny : Score
  pub on_flagged : Score
  pub on_allow : Score
  pub concession_delta : Score
  pub min_after_concession : Score

abbrev spaced : Bool → List ℕ → List ℕ
spaced underscores t = map (λ c. if c == b'-' || (underscores && c == b'_') then b' ' else c) t

abbrev join_texts : List String → List ℕ
join_texts [] = []
join_texts (s ∷ []) = codes s
join_texts (s ∷ t ∷ ts) = codes s ++ b' ' ∷ join_texts (t ∷ ts)

unfoldable pub outcome_text : Unicode → PolicyOutcome → List ℕ
unfolding lower_text
outcome_text uni o =
    spaced true (lower_text uni (codes o.package_name ++ b' ' ∷ join_texts o.violations))

abbrev violations_of : List PolicyOutcome → List String
violations_of [] = []
violations_of (o ∷ os) = o.violations ++ violations_of os

abbrev pub has_value : Option String → Bool
has_value none = false
has_value (some s) = not (str_eq s "")

-- `next((o for o in scoped if o.circular_number), scoped[0])`
unfoldable pub first_cited : PolicyOutcome → List PolicyOutcome → PolicyOutcome
first_cited default [] = default
first_cited default (o ∷ os) = if has_value o.circular_number then o else first_cited default os

abbrev is_undefined_outcome : PolicyOutcome → Bool
is_undefined_outcome o = elim o.allow [ none ↦ true | some b ↦ false ]

module _ {Score : Type 0} where
  unfoldable pub is_in_scope : Unicode → DomainAgent Score → PolicyOutcome → Bool
  unfolding outcome_text contains_text
  is_in_scope uni agent o =
      let t = outcome_text uni o in
      any_of (λ k. contains_text (spaced false (codes k)) t) agent.domain_keywords

  unfoldable pub scoped_outcomes :
      Unicode → DomainAgent Score → List PolicyOutcome → List PolicyOutcome
  unfolding is_in_scope
  scoped_outcomes uni agent outcomes = keep_if (is_in_scope uni agent) outcomes

  abbrev cast :
      DomainAgent Score
      → PolicyOutcome
      → List PolicyOutcome
      → Decision
      → Score
      → Rationale
      → AgentVerdict Score
  cast agent cited scoped decision confidence why = record {
    agent_key = agent.agent_key;
    domain = agent.domain;
    decision = decision;
    confidence = confidence;
    weight = agent.weight;
    cited_circular_number = cited.circular_number;
    cited_clause_number = cited.clause_number;
    rationale = why;
    matched_rule_ids = map (λ o. o.rule_id) scoped;
  }

  module _ (score : Scores Score) (conf : Confidences Score) where
    unfoldable pub reduce_scoped_outcomes :
        DomainAgent Score → PolicyOutcome → List PolicyOutcome → AgentVerdict Score
    unfolding first_cited
    reduce_scoped_outcomes agent o os =
        let scoped = o ∷ os in
        let cited = first_cited o scoped in
        let found = violations_of scoped in
        let missing = keep_if is_undefined_outcome scoped in
        if not (is_empty found)
        then cast agent cited scoped deny conf.on_deny (violations_found found)
        else if not (is_empty missing)
        then cast agent cited scoped flagged conf.on_flagged (undefined_results (length missing))
        else cast agent cited scoped allow conf.on_allow (all_passed (length scoped))

    abbrev pub is_deny_verdict : AgentVerdict Score → Bool
    is_deny_verdict v = elim v.decision [ deny ↦ true | _ ↦ false ]

    abbrev is_cited : AgentVerdict Score → Bool
    is_cited v = elim v.cited_circular_number [ none ↦ false | some c ↦ true ]

    -- a DENY of another agent, of at least this weight, against a verdict that is no DENY
    abbrev pub presses : DomainAgent Score → AgentVerdict Score → AgentVerdict Score → Bool
    presses agent v other =
        not (str_eq other.agent_key agent.agent_key)
        && is_deny_verdict other
        && not (is_deny_verdict v)
        && not (score.less other.weight agent.weight)
        && is_cited other

    abbrev larger : Score → Score → Score
    larger a b = if score.less a b then b else a

    abbrev pub softened : AgentVerdict Score → AgentVerdict Score
    softened v = record v {
      confidence =
          larger conf.min_after_concession (score.minus v.confidence conf.concession_delta);
      rationale = conceded v.rationale;
    }

    unfoldable pub apply_negotiation_pressure :
        DomainAgent Score
        → AgentVerdict Score
        → Option (List (AgentVerdict Score))
        → AgentVerdict Score
    apply_negotiation_pressure agent v none = v
    apply_negotiation_pressure agent v (some prior) =
        if any_of (presses agent v) prior then softened v else v

    abbrev pub vote :
        DomainAgent Score
        → Option (List (AgentVerdict Score))
        → List PolicyOutcome
        → Option (AgentVerdict Score)
    vote agent prior [] = none
    vote agent prior (o ∷ os) =
        some (apply_negotiation_pressure agent (reduce_scoped_outcomes agent o os) prior)

    -- `prior` has the verdicts of the round before, from the second round on
    unfoldable pub evaluate_agent :
        Unicode
        → List PolicyOutcome
        → Option (List (AgentVerdict Score))
        → DomainAgent Score
        → Option (AgentVerdict Score)
    unfolding scoped_outcomes reduce_scoped_outcomes apply_negotiation_pressure
    evaluate_agent uni outcomes prior agent = vote agent prior (scoped_outcomes uni agent outcomes)

    abbrev pub add_vote :
        Option (AgentVerdict Score) → List (AgentVerdict Score) → List (AgentVerdict Score)
    add_vote none rest = rest
    add_vote (some v) rest = v ∷ rest

    -- `_collect_verdicts`: the verdicts in the order of the agents, without the abstentions
    unfoldable pub collect_verdicts :
        Unicode
        → List PolicyOutcome
        → Option (List (AgentVerdict Score))
        → List (DomainAgent Score)
        → List (AgentVerdict Score)
    unfolding evaluate_agent
    collect_verdicts uni outcomes prior [] = []
    collect_verdicts uni outcomes prior (a ∷ agents) =
        add_vote (evaluate_agent uni outcomes prior a) (collect_verdicts uni outcomes prior agents)
