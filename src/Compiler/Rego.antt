-- ===== src/Compiler/Rego.antt =====
-- app/compiler/rego_compiler.py: what the Rego compiler refuses. The text of a module, with its
-- package and its hash, is what the argument `render` gives for a rule and the fields of its
-- thresholds, since only OPA reads it.
use reg_engine_ai.Base.{
  String, Bool, Option, none, some, List, [], ◌∷◌, Result, ok, err, ◌>>=◌, any_of, is_empty, str_eq,
  if◌then◌else◌,
}
use reg_engine_ai.Compiler.Models.{
  ComparisonOperator, op_range, NumericalThreshold, ExtractedComplianceRule,
}
use reg_engine_ai.Compiler.JsonLogic.{
  CompileError, undefined_fact, assertion_failed, nothing_to_compile, text_or,
}
use reg_engine_ai.Compiler.Facts.{CanonicalFact}

module _ {Number : Type 0} (field_name : String → String → Option String)
    (catalogue : List (CanonicalFact Number)) where
  -- `get_canonical_fact`, as a test
  abbrev pub is_defined_fact : String → Bool
  is_defined_fact fact = any_of (λ f. str_eq f.identifier fact) catalogue

  abbrev derived_field : Option String → Result CompileError String
  derived_field none = err undefined_fact
  derived_field (some f) = ok f

  -- `_threshold_field`: a missing or empty `canonical_fact` is derived from the metric
  unfoldable pub threshold_field : NumericalThreshold Number → Result CompileError String
  threshold_field t =
      let fact = text_or t.canonical_fact "" in
      if str_eq fact ""
      then derived_field (field_name t.metric t.unit)
      else if is_defined_fact fact
      then ok fact
      else err undefined_fact

  -- the `assert` on the upper bound of a range
  abbrev pub check_upper : ComparisonOperator → Option Number → String → Result CompileError String
  check_upper op_range none field = err assertion_failed
  check_upper op upper field = ok field

  -- the exceptions of `_pass_condition`; those of `_violation_clauses`, which comes after all of
  -- these, are the same
  unfoldable pub pass_condition : NumericalThreshold Number → Result CompileError String
  unfolding threshold_field
  pass_condition t = threshold_field t >>= λ field. check_upper t.operator t.value_upper field

  unfoldable pub condition_fields :
      List (NumericalThreshold Number) → Result CompileError (List String)
  unfolding pass_condition
  condition_fields [] = ok []
  condition_fields (t ∷ ts) =
      pass_condition t >>= λ field. condition_fields ts >>= λ fields. ok (field ∷ fields)

  unfoldable pub compile_rule_to_rego :
      {Rego : Type 0}
      → (ExtractedComplianceRule Number → List String → Rego)
      → ExtractedComplianceRule Number
      → Result CompileError Rego
  unfolding condition_fields
  compile_rule_to_rego render rule =
      if is_empty rule.deterministic_logic
      then err nothing_to_compile
      else condition_fields rule.deterministic_logic >>= λ fields. ok (render rule fields)
