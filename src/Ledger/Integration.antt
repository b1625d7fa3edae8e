-- ===== src/Ledger/Integration.antt =====
-- app/ledger/integration.py: the ledger events of one evaluation, and their best-effort append. The
-- JSON text and the SHA-256 of the two digests are the functions of `EvidenceHash`; `explain` is
-- the headline texts of app.explainability. The breach events and the grievance escalation, which
-- are sent beside the ledger writes and cannot fail them, are left out.
use Prim.Native.Char.{code}
use reg_engine_ai.Base.{
  ℕ, suc, String, Bool, true, false, Option, none, some, List, [], ◌∷◌, Result, ok, ◌>>=◌, ◌==◌,
  str_eq, if◌then◌else◌,
}
use reg_engine_ai.Execution.Models.{
  Decision, allow, deny, flagged, TransactionPayload, PolicyOutcome, Reason, EvaluationResult,
}
use reg_engine_ai.Ledger.Models.{
  Datetime, naive, EvaluationOutcome, pass, fail, hitl_review, ComplianceEvaluationEvent,
  ValidationError, validate_event, Row,
}
use reg_engine_ai.Ledger.HashChain.{Primitives}
use reg_engine_ai.Ledger.Service.{append_entry}

-- `rule_id.split(":", 1)[0]`
unfoldable pub before_colon : String → String
before_colon String.[] = String.[]
before_colon (String.◌∷◌ c s) =
    let rest = before_colon s in if code c == b':' then String.[] else String.◌∷◌ c rest

abbrev pub or_text : Option String → String → String
or_text none d = d
or_text (some s) d = if str_eq s "" then d else s

abbrev or_version : Option ℕ → ℕ
or_version none = 1
or_version (some n) = if n == 0 then 1 else n

abbrev pub of_allow : Option Bool → EvaluationOutcome
of_allow none = hitl_review
of_allow (some true) = pass
of_allow (some false) = fail

-- `_outcome_result`
unfoldable pub outcome_result : PolicyOutcome → EvaluationOutcome
outcome_result o = of_allow o.allow

-- `_decision_result`
unfoldable pub decision_result : Decision → EvaluationOutcome
decision_result allow = pass
decision_result deny = fail
decision_result flagged = hitl_review

pub record CanonicalTransaction (Facts : Type 0) : Type 0 where
  pub broker_id : String
  pub entity_type : String
  pub facts : Facts
  pub transaction_id : String

pub record EvidencePayload : Type 0 where
  pub transaction_id : String
  pub transaction_input_digest : String
  pub rule_id : String
  pub rule_version : ℕ
  pub policy_sha256 : Option String
  pub package_name : String
  pub circular_id : String
  pub section_reference : String
  pub clause_sha256 : String
  pub source_document_sha256 : Option String
  pub extracted_text_sha256 : Option String
  pub canonical_facts_digest : Option String
  pub evaluation_result : EvaluationOutcome
  pub violations : List String
  pub decision : Decision
  pub hitl_case_id : Option String

pub record TransactionEvidence : Type 0 where
  pub transaction_id : String
  pub transaction_input_digest : String
  pub rule_id : String
  pub evaluation_result : EvaluationOutcome
  pub violations : List Reason
  pub decision : Decision
  pub hitl_case_id : Option String

-- The `details` of a policy's row, and of the row of a transaction that no policy decided.
pub record PolicyDetails (Facts : Type 0) : Type 0 where
  pub violations : List String
  pub package_name : String
  pub transaction_decision : Decision
  pub explanation : List String
  pub entity_type : String
  pub facts : Facts
  pub transaction_input_digest : String
  pub rule_version : ℕ
  pub policy_sha256 : Option String
  pub canonical_facts_digest : Option String
  pub source_document_sha256 : Option String
  pub extracted_text_sha256 : Option String
  pub clause_sha256 : String
  pub evidence_digest : String

pub record TransactionDetails : Type 0 where
  pub decision : Decision
  pub reasons : List Reason
  pub transaction_input_digest : String
  pub evidence_digest : String

pub data Details (Facts : Type 0) : Type 0 where
  policy_details : PolicyDetails Facts → Details Facts
  transaction_details : TransactionDetails → Details Facts

pub record EvidenceHash (Facts : Type 0) : Type 0 where
  pub hash_transaction : CanonicalTransaction Facts → String
  pub hash_evidence : EvidencePayload → String
  pub hash_transaction_evidence : TransactionEvidence → String
  pub explain : PolicyOutcome → List String

abbrev pub Event : Type 0 → Type 0
Event Facts = ComplianceEvaluationEvent (Details Facts)

-- the id of the case only on the rows that wait for a review
abbrev review_id : EvaluationOutcome → Option String → Option String
review_id hitl_review id = id
review_id _ id = none

abbrev synthetic_rule_id : Decision → String
synthetic_rule_id flagged = "GLOBAL/KILL-SWITCH"
synthetic_rule_id deny = "GLOBAL/DENY"
synthetic_rule_id allow = "GLOBAL/NO-MATCHING-POLICY"

module _ {Facts : Type 0} (h : EvidenceHash Facts) (t : TransactionPayload Facts) where
  unfoldable pub compute_transaction_digest : String
  compute_transaction_digest = h.hash_transaction (record {
    broker_id = or_text t.broker_id "";
    entity_type = t.entity_type;
    facts = t.facts;
    transaction_id = t.transaction_id;
  })

  -- `_explanation_texts`
  abbrev explanation_texts : PolicyOutcome → List String → List String
  explanation_texts o [] = []
  explanation_texts o (v ∷ vs) = h.explain o

  module _ (r : EvaluationResult) where
    abbrev clause_hash_of : PolicyOutcome → String
    clause_hash_of o = or_text o.clause_sha256 (before_colon o.rule_id)

    unfoldable pub evidence_of : PolicyOutcome → EvidencePayload
    evidence_of o = record {
      transaction_id = t.transaction_id;
      transaction_input_digest = compute_transaction_digest;
      rule_id = o.rule_id;
      rule_version = or_version o.rule_version;
      policy_sha256 = o.policy_sha256;
      package_name = o.package_name;
      circular_id = or_text o.circular_number "unknown";
      section_reference = or_text o.clause_number "unscoped";
      clause_sha256 = clause_hash_of o;
      source_document_sha256 = o.source_document_sha256;
      extracted_text_sha256 = o.extracted_text_sha256;
      canonical_facts_digest = o.canonical_facts_digest;
      evaluation_result = outcome_result o;
      violations = o.violations;
      decision = r.decision;
      hitl_case_id = review_id (outcome_result o) r.hitl_case_id;
    }

    unfoldable pub details_of : PolicyOutcome → PolicyDetails Facts
    details_of o = record {
      violations = o.violations;
      package_name = o.package_name;
      transaction_decision = r.decision;
      explanation = explanation_texts o o.violations;
      entity_type = t.entity_type;
      facts = t.facts;
      transaction_input_digest = compute_transaction_digest;
      rule_version = or_version o.rule_version;
      policy_sha256 = o.policy_sha256;
      canonical_facts_digest = o.canonical_facts_digest;
      source_document_sha256 = o.source_document_sha256;
      extracted_text_sha256 = o.extracted_text_sha256;
      clause_sha256 = clause_hash_of o;
      evidence_digest = h.hash_evidence (evidence_of o);
    }

    unfoldable pub policy_event : PolicyOutcome → Event Facts
    policy_event o = record {
      broker_id = or_text t.broker_id "unknown";
      transaction_id = t.transaction_id;
      evaluated_at = naive r.evaluated_at;
      circular_id = or_text o.circular_number "unknown";
      clause_hash = clause_hash_of o;
      section_reference = or_text o.clause_number "unscoped";
      rule_id = o.rule_id;
      evaluation_result = outcome_result o;
      hitl_review_id = review_id (outcome_result o) r.hitl_case_id;
      details = policy_details (details_of o);
    }

    unfoldable pub transaction_event : Event Facts
    transaction_event =
        let rule_id : String = synthetic_rule_id r.decision in
        let evidence : TransactionEvidence = record {
          transaction_id = t.transaction_id;
          transaction_input_digest = compute_transaction_digest;
          rule_id = rule_id;
          evaluation_result = decision_result r.decision;
          violations = r.reasons;
          decision = r.decision;
          hitl_case_id = r.hitl_case_id;
        } in
        record {
          broker_id = or_text t.broker_id "unknown";
          transaction_id = t.transaction_id;
          evaluated_at = naive r.evaluated_at;
          circular_id = "unknown";
          clause_hash = before_colon rule_id;
          section_reference = "unscoped";
          rule_id = rule_id;
          evaluation_result = decision_result r.decision;
          hitl_review_id = review_id (decision_result r.decision) r.hitl_case_id;
          details = transaction_details (record {
            decision = r.decision;
            reasons = r.reasons;
            transaction_input_digest = compute_transaction_digest;
            evidence_digest = h.hash_transaction_evidence evidence;
          });
        }

    -- The loop over the outcomes; the constructor of an event may raise.
    unfoldable pub policy_events : List PolicyOutcome → Result ValidationError (List (Event Facts))
    policy_events [] = ok []
    policy_events (o ∷ os) = do
      e ← validate_event (policy_event o)
      rest ← policy_events os
      ok (e ∷ rest)

    unfoldable pub or_transaction_event :
        List (Event Facts) → Result ValidationError (List (Event Facts))
    or_transaction_event [] = do e ← validate_event transaction_event; ok (e ∷ [])
    or_transaction_event (e ∷ es) = ok (e ∷ es)

    unfoldable pub build_ledger_events : Result ValidationError (List (Event Facts))
    build_ledger_events = do events ← policy_events r.matched_policies; or_transaction_event events

-- What one append gets from the outside: whether the write goes through, the row's id, the time.
pub record Outside : Type 0 where
  pub goes_through : Bool
  pub id : ℕ
  pub now : Datetime

module _ {Facts : Type 0} (p : Primitives (Details Facts)) (outside : ℕ → Outside) where
  -- The loop of `log_evaluation` from its `i`-th event on: an append that fails is skipped.
  unfoldable pub write_events :
      ℕ → List (Event Facts) → List (Row (Details Facts)) → List (Row (Details Facts))
  write_events i [] table = table
  write_events i (e ∷ es) table = write_events (suc i) es (
      if (outside i).goes_through
      then (append_entry p table (outside i).id (outside i).now e).0
      else table)

  unfoldable pub log_evaluation :
      EvidenceHash Facts
      → TransactionPayload Facts
      → EvaluationResult
      → List (Row (Details Facts))
      → Result ValidationError (List (Row (Details Facts)))
  log_evaluation h t r table = do
    events ← build_ledger_events h t r
    ok (write_events 0 events table)
