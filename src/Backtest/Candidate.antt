-- ===== src/Backtest/Candidate.antt =====
-- app/backtest/candidate_evaluator.py: one recorded transaction against the candidate policy. The
-- message template and its `str.format` are the argument `render`, which may raise; the violation_message
-- messages are data, before they are printed. `OpaCandidateEvaluator` is given the answer of OPA.
use reg_engine_ai.Base.{
  String, Option, none, some, List, [], ◌∷◌, Result, ok, err, ◌>>=◌, is_empty, str_eq,
  if◌then◌else◌,
}
use reg_engine_ai.Backtest.Json.{
  Numbers, Json, text, object, Members, end, member, EvalError, missing_fact, unsupported_node,
  is_true,
}
use reg_engine_ai.Backtest.Evaluator.{evaluate_jsonlogic}
use reg_engine_ai.Execution.Models.{Decision, allow, deny, flagged}
use reg_engine_ai.Execution.Evaluator.{OpaDecision, OpaEngineError, list_or_nil}

pub data CandidateMessage : Type 0 where
  no_such_fact rendered : String → CandidateMessage
  unsupported_shape condition_not_satisfied opa_unreachable undefined_result : CandidateMessage

pub data CandidateError : Type 0 where
  evaluation_raised : EvalError → CandidateError
  render_raised : CandidateError

abbrev pub CandidateVerdict : Type 0
CandidateVerdict = Decision × List CandidateMessage

abbrev pub denied : Result CandidateError CandidateMessage → Result CandidateError CandidateVerdict
denied x = x >>= λ message. ok (deny, message ∷ [])

module _ {Number : Type 0} where
  abbrev pub document : String → Members Number → Json Number
  document entity_type facts =
      object (member "entity_type" (text entity_type) (member "facts" (object facts) end))

  module _ (render : String → Members Number → Option String) where
    abbrev pub violation_message :
        Option String → Members Number → Result CandidateError CandidateMessage
    violation_message none facts = ok condition_not_satisfied
    violation_message (some template) facts =
        if str_eq template "" then ok condition_not_satisfied else elim (render template facts) [
          | none ↦ err render_raised
          | some message ↦ ok (rendered message)
        ]

    module _ (num : Numbers Number) where
      abbrev pub verdict_of :
          Option String
          → Members Number
          → Result EvalError (Json Number)
          → Result CandidateError CandidateVerdict
      verdict_of template facts (err (missing_fact path)) = ok (flagged, no_such_fact path ∷ [])
      verdict_of template facts (err unsupported_node) = ok (flagged, unsupported_shape ∷ [])
      verdict_of template facts (err e) = err (evaluation_raised e)
      verdict_of template facts (ok v) =
          if is_true num v then ok (allow, []) else denied (violation_message template facts)

      -- JsonLogicCandidateEvaluator.evaluate
      unfoldable pub evaluate_candidate :
          Json Number
          → Option String
          → String
          → Members Number
          → Result CandidateError CandidateVerdict
      unfolding evaluate_jsonlogic
      evaluate_candidate logic template entity_type facts =
          verdict_of template facts (evaluate_jsonlogic num logic (document entity_type facts))

abbrev opa_messages : List String → List CandidateMessage
opa_messages [] = []
opa_messages (v ∷ vs) = rendered v ∷ opa_messages vs

-- OpaCandidateEvaluator.evaluate
unfoldable pub evaluate_opa : Result OpaEngineError (Option OpaDecision) → CandidateVerdict
evaluate_opa (err e) = (flagged, opa_unreachable ∷ [])
evaluate_opa (ok none) = (flagged, undefined_result ∷ [])
evaluate_opa (ok (some d)) =
    let violations = list_or_nil d.violations in
    (if is_empty violations then allow else deny, opa_messages violations)
