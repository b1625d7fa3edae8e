-- ===== src/Compiler/Compiled.antt =====
-- A compiled rule against the thresholds that it was compiled from.
use reg_engine_ai.Base.{
  ◌≡◌, sym, subst, ◌∙◌, ap, String, Bool, true, false, ◌||◌, Option, List, [], ◌∷◌, ◌++◌, Result,
  ok, err, All, ◌↔◌, bind_value, ok-injective, is_empty, is_member, if◌then◌else◌,
}
use reg_engine_ai.Backtest.Json.{Numbers, Json, Members}
use reg_engine_ai.Backtest.Candidate.{document, evaluate_candidate}
use reg_engine_ai.Backtest.Verdicts.{allows_iff}
use reg_engine_ai.Execution.Models.{allow}
use reg_engine_ai.Compiler.Models.{ExtractedComplianceRule, JsonLogicRule}
use reg_engine_ai.Compiler.JsonLogic.{
  entity_names, named_entities, entity_clause, join_clauses, threshold_clauses, schema_from,
  compile_rule_to_jsonlogic,
}
use reg_engine_ai.Compiler.Meaning.{IsSatisfied, IsSatisfied-and}
use reg_engine_ai.Compiler.Entities.{IsSatisfied-entities, names_lem}
use reg_engine_ai.Compiler.Thresholds.{IsMet, IsSatisfied-thresholds}

All-append {ℓ κ} :
    {A : Type ℓ} (P : A → Type κ) (xs ys : List A) → All P (xs ++ ys) ↔ (All P xs × All P ys)
All-append P [] ys = (λ h. (tt, h), λ h. h.1)
All-append P (x ∷ xs) ys =
    let r = All-append P xs ys in
    (λ h. ((h.0, (r.0 h.1).0), (r.0 h.1).1), λ h. (h.0.0, r.1 (h.0.1, h.1)))

if_ok {ℓ κ} :
    {E : Type ℓ} {A : Type κ} (b : Bool) (e : E) (x : Result E A) {a : A}
    → (if b then err e else x) ≡ ok a
    → x ≡ ok a
if_ok true e x h = absurd (cc)
if_ok false e x h = h

module _ {Number : Type 0} (num : Numbers Number) where
  IsSatisfied-join :
      (cs : List (Json Number)) (d : Json Number)
      → IsSatisfied num d (join_clauses cs) ↔ All (IsSatisfied num d) cs
  IsSatisfied-join [] d = IsSatisfied-and num [] d
  IsSatisfied-join (c ∷ []) d = (λ h. (h, tt), λ h. h.0)
  IsSatisfied-join (c ∷ x ∷ cs) d = IsSatisfied-and num (c ∷ x ∷ cs) d

  module _ (field_name : String → String → Option String) where
    -- A rule that compiles has clauses, and their conjunction is its tree.
    compiled_logic :
        (rule : ExtractedComplianceRule Number) (r : JsonLogicRule Number)
        → compile_rule_to_jsonlogic field_name rule ≡ ok r
        → (cs : List (Json Number)) × (threshold_clauses field_name rule.deterministic_logic
            ≡ ok cs)
          × (r.logic ≡ join_clauses (entity_clause (entity_names rule) ++ cs))
    unfolding compile_rule_to_jsonlogic
    compiled_logic rule r h =
        let g = if_ok (is_empty rule.deterministic_logic) _ _ h in
        let (cs, p, q) = bind_value (threshold_clauses field_name rule.deterministic_logic) _ g in
        let (schema, x, y) = bind_value (schema_from field_name rule.deterministic_logic _) _ q in
        (cs, p, ap (λ z. z.logic) (sym (ok-injective y)))

    module _ (render : String → Members Number → Option String) where
      -- The backtest allows a transaction under a compiled rule exactly where the rule applies to
      -- its entity, or names none, and every threshold is met by the number that its fact has.
      pub evaluate_candidate-compile_rule_to_jsonlogic :
          (rule : ExtractedComplianceRule Number) (r : JsonLogicRule Number)
          (template : Option String) (entity_type : String) (facts : Members Number)
          → compile_rule_to_jsonlogic field_name rule ≡ ok r
          → (evaluate_candidate render num r.logic template entity_type facts ≡ ok (allow, [])) ↔ (
              ((is_empty (named_entities rule) || is_member entity_type (named_entities rule))
                ≡ true)
              × All (IsMet num field_name (document entity_type facts)) rule.deterministic_logic)
      evaluate_candidate-compile_rule_to_jsonlogic rule r template entity_type facts h =
          let (cs, p, q) = compiled_logic rule r h in
          let d = document entity_type facts in
          let names = IsSatisfied-entities num entity_type facts (entity_names rule) in
          let limits = IsSatisfied-thresholds num field_name rule.deterministic_logic d cs p in
          let parts = All-append (IsSatisfied num d) (entity_clause (entity_names rule)) cs in
          let whole = IsSatisfied-join (entity_clause (entity_names rule) ++ cs) d in
          let allowed = allows_iff render num r.logic template entity_type facts in
          (
            λ a.
                let s = parts.0 (whole.0 (subst (IsSatisfied num d) q (allowed.0 a))) in
                (sym (names_lem entity_type rule) ∙ names.0 s.0, limits.0 s.1),
            λ b. allowed.1 (
                subst (IsSatisfied num d) (sym q)
                  (whole.1 (parts.1 (names.1 (names_lem entity_type rule ∙ b.0), limits.1 b.1)))),
          )
