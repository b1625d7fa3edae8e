-- ===== src/Negotiation/Tests.antt =====
-- Two agents in hundredths: one denies on a cited clause, the other allows.
use Prim.Native.Nat.{◌/◌}
use reg_engine_ai.Base.{
  ℕ, ◌+◌, ◌-◌, ◌*◌, ◌≤◌, ◌≡◌, refl, Bool, true, false, none, some, List, [], ◌∷◌, All, length, ltb,
  ◌==◌, Result, ok, any_of, if◌then◌else◌,
}
use reg_engine_ai.Execution.Models.{
  deny, flagged, PolicyOutcome, TransactionPayload, Reason, undefined_decision,
}
use reg_engine_ai.Execution.HitlQueue.{HitlQueue, enqueue}
use reg_engine_ai.Compiler.Facts.{Unicode}
use reg_engine_ai.Negotiation.Models.{
  Scores, NegotiationRound, NegotiationResult, escalated_to_hitl, arbitrated,
}
use reg_engine_ai.Negotiation.Agents.{DomainAgent, Confidences, collect_verdicts}
use reg_engine_ai.Negotiation.Consensus.{deadlocked, round_of, run_rounds}
use reg_engine_ai.Negotiation.Arbiter.{ArbiterError, is_clause_deny, last_round}
use reg_engine_ai.Negotiation.Orchestrator.{should_negotiate, negotiate}
use reg_engine_ai.Negotiation.Settling.{IsOld, run_settles}
use reg_engine_ai.Negotiation.Outcomes.{
  IsTranscript, IsSettled, run_rounds-IsTranscript, negotiate-IsSettled, clause_deny_decides,
}
use reg_engine_ai.Negotiation.Progress.{IsBarred, negotiate_returns}

abbrev hundredths : Scores ℕ
hundredths = record {
  zero = 0;
  plus = λ a b. a + b;
  minus = λ a b. a - b;
  times = λ a b. a * b;
  over = λ a b. if a == 0 then 0 else a * 100 / b;
  less = ltb;
  same = λ a b. a == b;
}

abbrev confidences : Confidences ℕ
confidences = record {
  on_deny = 90;
  on_flagged = 40;
  on_allow = 85;
  concession_delta = 35;
  min_after_concession = 5;
}

abbrev plain : Unicode
plain = record { lower = λ c. c ∷ []; is_space = λ c. c == b' ' }

abbrev margin_agent : DomainAgent ℕ
margin_agent = record {
  agent_key = "margin_agent";
  domain = "margin";
  weight = 12;
  domain_keywords = "margin" ∷ [];
}

abbrev disclosure_agent : DomainAgent ℕ
disclosure_agent = record {
  agent_key = "risk_disclosure_agent";
  domain = "risk_disclosure";
  weight = 10;
  domain_keywords = "risk disclosure" ∷ [];
}

abbrev low_margin : PolicyOutcome
low_margin = record {
  rule_id = "r1";
  package_name = "sebi.broking.c1.clause_4_2";
  allow = some false;
  violations = "upfront margin below 20%" ∷ [];
  circular_number = some "SEBI/1";
  clause_number = some "4.2";
  rule_version = some 1;
  policy_sha256 = none;
  canonical_facts_digest = none;
  source_document_sha256 = none;
  extracted_text_sha256 = none;
  clause_sha256 = none;
}

abbrev disclosed : PolicyOutcome
disclosed = record low_margin {
  rule_id = "r2";
  package_name = "sebi.broking.c1.clause_risk_disclosure";
  allow = some true;
  violations = [];
}

abbrev agents : List (DomainAgent ℕ)
agents = margin_agent ∷ disclosure_agent ∷ []

abbrev outcomes : List PolicyOutcome
outcomes = low_margin ∷ disclosed ∷ []

abbrev order_ : TransactionPayload ℕ
order_ = record {
  transaction_id = "t1";
  entity_type = "Stockbroker";
  facts = 0;
  broker_id = none;
  callback_url = none;
}

abbrev empty : HitlQueue ℕ
empty = record { cases = []; pending_set = [] }

abbrev why : List (NegotiationRound ℕ) → List Reason
why rounds = undefined_decision ∷ []

worth_it : should_negotiate plain outcomes agents ≡ true
unfolding should_negotiate
worth_it = refl

run_settles_example :
    let (rounds, state) = run_rounds hundredths 5 confidences plain agents 80 outcomes 5 in
    (state ≡ (run_rounds hundredths 5 confidences plain agents 80 outcomes 2).1)
    × All (IsOld hundredths confidences plain 5 80 agents outcomes) rounds
run_settles_example = run_settles hundredths confidences plain 5 80 agents outcomes 3

run_rounds-IsTranscript_example :
    let (rounds, state) = run_rounds hundredths 5 confidences plain agents 80 outcomes 3 in
    (length rounds ≤ 3) × IsTranscript 1 rounds state
run_rounds-IsTranscript_example =
    run_rounds-IsTranscript hundredths 5 confidences plain agents 80 outcomes 3

abbrev first_vote : NegotiationRound ℕ
first_vote =
    round_of hundredths 5 80 1 (collect_verdicts hundredths confidences plain outcomes none agents)

one_round :
    run_rounds hundredths 5 confidences plain agents 80 outcomes 1 ≡ (first_vote ∷ [], deadlocked)
unfolding run_rounds collect_verdicts
one_round = refl

abbrev denies : Bool
denies = any_of is_clause_deny first_vote.verdicts

cites_a_clause : denies ≡ true
unfolding collect_verdicts
cites_a_clause = refl

last_of_one : last_round (first_vote ∷ []) ≡ some first_vote
unfolding last_round
last_of_one = refl

clause_deny_decides_example :
    (result : NegotiationResult ℕ) × (negotiate hundredths 5 50 why "n1" "case-1" 7 order_ outcomes
        empty confidences plain agents 80 1
      ≡ ok (result, empty))
    × (result.final_decision ≡ deny)
    × (result.status ≡ arbitrated)
clause_deny_decides_example =
    clause_deny_decides hundredths 5 50 why "n1" "case-1" 7 order_ outcomes empty confidences plain
      agents 80 1 (first_vote ∷ []) first_vote one_round last_of_one cites_a_clause

hundredths-IsBarred : IsBarred hundredths 50
hundredths-IsBarred = record { zero_over = λ t. refl; positive = refl }

negotiate_returns_example :
    (x : NegotiationResult ℕ × HitlQueue ℕ) × (negotiate hundredths 5 50 why "n1" "case-1" 7 order_
        outcomes empty confidences plain agents 80 2
      ≡ ok x)
negotiate_returns_example =
    negotiate_returns hundredths 5 50 hundredths-IsBarred why "n1" "case-1" 7 order_ outcomes empty
      confidences plain agents 80 2

-- Without a citation and with a high bar for the arbiter, the case goes to a human.
abbrev uncited : List PolicyOutcome
uncited =
    record low_margin { circular_number = none } ∷ record disclosed { circular_number = none } ∷ []

abbrev asked : Result ArbiterError (NegotiationResult ℕ × HitlQueue ℕ)
asked =
    negotiate hundredths 5 90 why "n1" "case-1" 7 order_ uncited empty confidences plain agents 80 1

abbrev open_round : NegotiationRound ℕ
open_round =
    round_of hundredths 5 80 1 (collect_verdicts hundredths confidences plain uncited none agents)

abbrev escalated : NegotiationResult ℕ
escalated = record {
  negotiation_id = "n1";
  transaction_id = "t1";
  status = escalated_to_hitl;
  final_decision = flagged;
  rounds = open_round ∷ [];
  arbiter_resolution = none;
  hitl_case_id = some "case-1";
}

abbrev queued : HitlQueue ℕ
queued = (enqueue "case-1" 7 order_ (undefined_decision ∷ []) uncited empty).1

goes_to_a_human : asked ≡ ok (escalated, queued)
unfolding negotiate collect_verdicts
goes_to_a_human = refl

negotiate-IsSettled_example :
    IsSettled hundredths 5 90 why "n1" "case-1" 7 order_ uncited empty
      (run_rounds hundredths 5 confidences plain agents 80 uncited 1).0
      (escalated, queued)
negotiate-IsSettled_example =
    negotiate-IsSettled hundredths 5 90 why "n1" "case-1" 7 order_ uncited empty confidences plain
      agents 80 1 escalated queued goes_to_a_human
