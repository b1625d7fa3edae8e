-- ===== src/Compiler/Pipeline.antt =====
-- app/compiler/pipeline.py: the gate before the compilers. The text of a Rego module is what the
-- argument `render` gives.
use reg_engine_ai.Base.{
  String, Bool, true, false, ◌||◌, ◌&&◌, Option, none, some, List, Result, ok, err, ◌>>=◌, is_empty,
  if◌then◌else◌,
}
use reg_engine_ai.Backtest.Json.{Numbers, Json}
use reg_engine_ai.Compiler.Models.{
  ExtractedComplianceRule, AuditedComplianceRule, HitlFlag, JsonLogicRule,
}
use reg_engine_ai.Compiler.JsonLogic.{
  CompileError, malformed_ast, compile_rule_to_jsonlogic, validate_json_logic_ast,
  validate_json_serializable,
}
use reg_engine_ai.Compiler.Facts.{Unicode, CanonicalFact, metric_field_name}
use reg_engine_ai.Compiler.Rego.{compile_rule_to_rego}
use reg_engine_ai.Compiler.Flags.{has_blocking_flags, collect_hitl_flags}

pub record CompilationResult (Rego Number : Type 0) : Type 0 where
  pub rule_id : String
  pub compiled : Bool
  pub rego : Option Rego
  pub json_logic : Option (JsonLogicRule Number)
  pub hitl_flags : List HitlFlag

module _ {Rego Number : Type 0} (num : Numbers Number) (uni : Unicode)
    (catalogue : List (CanonicalFact Number))
    (render : ExtractedComplianceRule Number → List String → Rego) where
  abbrev pub validated : Json Number → Result CompileError (Unit {0})
  validated logic =
      if validate_json_logic_ast logic && validate_json_serializable num logic
      then ok tt
      else err malformed_ast

  unfoldable pub compile_audited_rule :
      Number → AuditedComplianceRule Number → Result CompileError (CompilationResult Rego Number)
  unfolding collect_hitl_flags has_blocking_flags compile_rule_to_jsonlogic metric_field_name
      validate_json_logic_ast validate_json_serializable compile_rule_to_rego
  compile_audited_rule threshold a =
      let flags = collect_hitl_flags num uni catalogue threshold a in
      if has_blocking_flags flags || is_empty a.rule.deterministic_logic
      then ok record {
        rule_id = a.rule.rule_id;
        compiled = false;
        rego = none;
        json_logic = none;
        hitl_flags = flags;
      }
      else compile_rule_to_rego (metric_field_name uni num catalogue) catalogue render a.rule
        >>= λ rego.
            compile_rule_to_jsonlogic (metric_field_name uni num catalogue) a.rule >>= λ logic.
            validated logic.logic >>= λ checked. ok record {
              rule_id = a.rule.rule_id;
              compiled = true;
              rego = some rego;
              json_logic = some logic;
              hitl_flags = flags;
            }
