-- ===== src/Backtest/Verdicts.antt =====
-- What the verdict of `evaluate_candidate` says of the tree's value.
use reg_engine_ai.Base.{
  ◌≡◌, refl, String, true, Option, [], Result, ok, err, ◌↔◌, Bool-cases, ok-injective, inl, inr,
  arith,
}
use reg_engine_ai.Backtest.Json.{Numbers, Json, Members, EvalError, is_true}
use reg_engine_ai.Backtest.Evaluator.{evaluate_jsonlogic}
use reg_engine_ai.Backtest.Candidate.{
  CandidateMessage, CandidateError, document, denied, violation_message, verdict_of,
  evaluate_candidate,
}
use reg_engine_ai.Execution.Models.{allow}

denied_not_allowed : (x : Result CandidateError CandidateMessage) → denied x ≡ ok (allow, []) → ⊥
denied_not_allowed (ok m) e = absurd (cc)
denied_not_allowed (err m) e = absurd (cc)

module _ {Number : Type 0} (render : String → Members Number → Option String)
    (num : Numbers Number) where
  allow_if_true :
      (template : Option String) (facts : Members Number) (x : Result EvalError (Json Number))
      → (verdict_of render num template facts x ≡ ok (allow, []))
        ↔ ((v : Json Number) × (x ≡ ok v) × (is_true num v ≡ true))
  allow_if_true template facts (err e) = ground arith
  allow_if_true template facts (ok v) = elim (Bool-cases (is_true num v)) [
    | inl h ↦ rw h (λ e. (v, refl, h), λ e. refl)
    | inr h ↦ rw h (
      λ e. absurd (denied_not_allowed (violation_message render template facts) e),
      λ (w, p, q). absurd (cc (ok-injective p, h, q)),
    )
  ]

  -- A transaction is allowed where the tree has a true value on its document.
  pub allows_iff :
      (logic : Json Number) (template : Option String) (entity_type : String)
      (facts : Members Number)
      → (evaluate_candidate render num logic template entity_type facts ≡ ok (allow, [])) ↔ (
          (v : Json Number) × (evaluate_jsonlogic num logic (document entity_type facts) ≡ ok v)
          × (is_true num v ≡ true))
  unfolding evaluate_candidate
  allows_iff logic template entity_type facts =
      allow_if_true template facts (evaluate_jsonlogic num logic (document entity_type facts))
