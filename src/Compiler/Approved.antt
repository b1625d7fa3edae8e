-- ===== src/Compiler/Approved.antt =====
-- What a compiled rule has behind it.
use reg_engine_ai.Base.{
  ◌≡◌, ap, String, Bool, true, false, not, ◌||◌, List, [], ok, any_of, is_empty, ok-injective,
  arith, Bool-cases, inl, inr,
}
use reg_engine_ai.Backtest.Json.{Numbers}
use reg_engine_ai.Compiler.Models.{ExtractedComplianceRule, AuditedComplianceRule}
use reg_engine_ai.Compiler.Facts.{Unicode, CanonicalFact}
use reg_engine_ai.Compiler.Flags.{
  has_blocking_flags, collect_hitl_flags, is_audited, thresholds_conflict, group_by_field,
}
use reg_engine_ai.Compiler.Gate.{is_confident, is_mapped, unblocked}
use reg_engine_ai.Compiler.Pipeline.{CompilationResult, compile_audited_rule}

either_false : {a : Bool} (b : Bool) → (a || b) ≡ false → a ≡ false
either_false b h = ground arith

module _ {Rego Number : Type 0} (num : Numbers Number) (uni : Unicode)
    (catalogue : List (CanonicalFact Number))
    (render : ExtractedComplianceRule Number → List String → Rego) where
  gate_open :
      (threshold : Number) (a : AuditedComplianceRule Number)
      (result : CompilationResult Rego Number)
      → compile_audited_rule num uni catalogue render threshold a ≡ ok result
      → result.compiled ≡ true
      → (has_blocking_flags (collect_hitl_flags num uni catalogue threshold a)
          || is_empty a.rule.deterministic_logic)
        ≡ false
  unfolding compile_audited_rule
  gate_open threshold a result e h =
      elim (Bool-cases (
        has_blocking_flags (collect_hitl_flags num uni catalogue threshold a)
        || is_empty a.rule.deterministic_logic)) [
          | inl b ↦ absurd (cc (ap (λ r. r.compiled) (ok-injective (rw b at e)), h))
          | inr b ↦ b
        ]

  -- A rule that comes out compiled was approved by its audit, has at least the required confidence,
  -- has only thresholds that the taxonomy knows with their units and bounds, and no two of its
  -- thresholds were found to conflict.
  pub compiled_rule_approved :
      (threshold : Number) (a : AuditedComplianceRule Number)
      (result : CompilationResult Rego Number)
      → compile_audited_rule num uni catalogue render threshold a ≡ ok result
      → result.compiled ≡ true
      → (is_audited a.verdict ≡ true)
        × (is_confident num threshold a.rule ≡ true)
        × (any_of (λ t. not (is_mapped num uni catalogue t)) a.rule.deterministic_logic ≡ false)
        × (any_of (λ g. thresholds_conflict num g.1) (group_by_field a.rule.deterministic_logic [])
            ≡ false)
  compiled_rule_approved threshold a result e h =
      unblocked num uni catalogue threshold a (either_false _ (gate_open threshold a result e h))
