-- ===== src/Compiler/Tests.antt =====
-- A margin rule over the natural numbers, a taxonomy of one fact, and what the theorems say of them.
use reg_engine_ai.Base.{
  ℕ, ◌+◌, ◌≡◌, refl, true, false, not, ◌&&◌, ◌||◌, none, some, List, [], ◌∷◌, All, ok, length,
  insert, ltb, leb, ◌==◌, codes, any_of, is_empty, is_member, arith, if◌then◌else◌, String, ◌↔◌,
  Option,
}
use reg_engine_ai.Backtest.Json.{Numbers, Json, text, list, Members, end, member, number}
use reg_engine_ai.Backtest.Candidate.{
  no_such_fact, condition_not_satisfied, document, evaluate_candidate,
}
use reg_engine_ai.Execution.Models.{Decision, allow, deny, flagged}
use reg_engine_ai.Backtest.Reporting.{
  HistoricalTransaction, build_outcomes, build_summary, count_if, failing_undefined,
  build_summary-build_outcomes,
}
use reg_engine_ai.Compiler.Models.{
  mandatory, op_gte, op_lte, op_range, NumericalThreshold, ExtractedComplianceRule,
  unresolved_entity, advisory, JsonLogicRule, audit_approved, AuditedComplianceRule,
}
use reg_engine_ai.Compiler.JsonLogic.{
  node, pair_of, var_, items, named_entities, compile_rule_to_jsonlogic,
}
use reg_engine_ai.Compiler.Facts.{Unicode, CanonicalFact, metric_field_name}
use reg_engine_ai.Compiler.Flags.{
  has_blocking_flags, collect_hitl_flags, lower_bounds, upper_bounds, thresholds_conflict,
  is_audited, is_recommended, flag, group_by_field,
}
use reg_engine_ai.Compiler.Conflicts.{IsOrdered, thresholds_conflict_iff}
use reg_engine_ai.Compiler.Thresholds.{IsMet}
use reg_engine_ai.Compiler.Compiled.{evaluate_candidate-compile_rule_to_jsonlogic}
use reg_engine_ai.Compiler.Gate.{is_confident, is_mapped, has_blocking_flags-collect_hitl_flags}
use reg_engine_ai.Compiler.Pipeline.{CompilationResult, compile_audited_rule}
use reg_engine_ai.Compiler.Totality.{is_present, compile_audited_rule_total}
use reg_engine_ai.Compiler.Approved.{compiled_rule_approved}

abbrev naturals : Numbers ℕ
naturals = record {
  num_lt = ltb;
  num_eq = λ a b. a == b;
  is_zero = λ a. a == 0;
  is_finite = λ a. true;
  of_bool = λ b. if b then 1 else 0;
}

abbrev ascii : Unicode
ascii = record {
  lower = λ c. (if leb b'A' c && leb c b'Z' then c + 32 else c) ∷ [];
  is_space = λ c. c == b' ';
}

abbrev margin_fact : CanonicalFact ℕ
margin_fact = record {
  identifier = "upfront_margin_pct";
  allowed_units = codes "%" ∷ [];
  synonyms = codes "upfront margin" ∷ [];
  min_value = some 0;
  max_value = some 100;
  regex_patterns = [];
}

abbrev margin : NumericalThreshold ℕ
margin = record {
  metric = "Upfront-Margin";
  canonical_fact = none;
  operator = op_gte;
  value = 20;
  value_upper = none;
  unit = "percent";
  applies_to = none;
}

abbrev rule : ExtractedComplianceRule ℕ
rule = record {
  rule_id = "r1";
  clause_number = some "4.2";
  target_entities =
      record { raw_text = "every broker"; normalized_entity = some "Stockbroker" }
      ∷ record { raw_text = "Clearing Member"; normalized_entity = none }
      ∷ [];
  deterministic_logic = margin ∷ record margin { operator = op_range; value_upper = some 50 } ∷ [];
  qualitative_directives = [];
  obligation_type = mandatory;
  extraction_confidence = 90;
  ambiguous_spans = [];
}

abbrev audited : AuditedComplianceRule ℕ
audited = record { rule = rule; verdict = audit_approved }

abbrev field_name : String → String → Option String
field_name = metric_field_name ascii naturals (margin_fact ∷ [])

abbrev silent : String → Members ℕ → Option String
silent template facts = none

abbrev facts : Members ℕ
facts = member "upfront_margin_pct" (number 30) end

naturals-IsOrdered : IsOrdered naturals
naturals-IsOrdered = record {
  irreflexive = λ a. ground arith;
  transitive = λ a b c p q. ground arith;
  comparable = λ a b c p q. ground arith;
}

margin_field : field_name "Upfront-Margin" "percent" ≡ some "upfront_margin_pct"
unfolding metric_field_name
margin_field = refl

abbrev entity_var : Json ℕ
entity_var = var_ "entity_type"

abbrev margin_var : Json ℕ
margin_var = var_ "facts.upfront_margin_pct"

abbrev compiled_rule : JsonLogicRule ℕ
compiled_rule = record {
  rule_id = "r1";
  logic = node "and" (
      list (
        items (
          node "in"
            (pair_of entity_var (list (items (text "Clearing Member" ∷ text "Stockbroker" ∷ []))))
          ∷ node ">=" (pair_of margin_var (number 20))
          ∷ node "and" (
              pair_of (node ">=" (pair_of margin_var (number 20)))
                (node "<=" (pair_of margin_var (number 50))))
          ∷ [])));
  data_schema = ("entity_type", "string") ∷ ("facts.upfront_margin_pct", "number") ∷ [];
  thresholds_compiled = 2;
}

compiles : compile_rule_to_jsonlogic field_name rule ≡ ok compiled_rule
unfolding compile_rule_to_jsonlogic metric_field_name insert
compiles = refl

missing_margin :
    evaluate_candidate silent naturals compiled_rule.logic none "Stockbroker" end
    ≡ ok (flagged, no_such_fact "facts.upfront_margin_pct" ∷ [])
unfolding evaluate_candidate
missing_margin = refl

low_margin :
    evaluate_candidate silent naturals compiled_rule.logic none "Stockbroker"
      (member "upfront_margin_pct" (number 10) end)
    ≡ ok (deny, condition_not_satisfied ∷ [])
unfolding evaluate_candidate
low_margin = refl

evaluate_candidate-compile_rule_to_jsonlogic_example :
    (evaluate_candidate silent naturals compiled_rule.logic none "Stockbroker" facts
      ≡ ok (allow, []))
    ↔ (((is_empty (named_entities rule) || is_member "Stockbroker" (named_entities rule)) ≡ true)
        × All (IsMet naturals field_name (document "Stockbroker" facts)) rule.deterministic_logic)
evaluate_candidate-compile_rule_to_jsonlogic_example =
    evaluate_candidate-compile_rule_to_jsonlogic naturals field_name silent rule compiled_rule none
      "Stockbroker" facts compiles

thresholds_conflict_iff_example : (thresholds_conflict naturals rule.deterministic_logic ≡ true) ↔ (
    (is_empty (lower_bounds rule.deterministic_logic) ≡ false)
    × (is_empty (upper_bounds rule.deterministic_logic) ≡ false)
    × All
        (λ l. All (λ u. naturals.num_lt u l ≡ true) (upper_bounds rule.deterministic_logic))
        (lower_bounds rule.deterministic_logic))
thresholds_conflict_iff_example =
    thresholds_conflict_iff naturals naturals-IsOrdered rule.deterministic_logic

-- At least 10, at least 30 and at most 20: no number meets all three, and no conflict is found.
abbrev contradictory : List (NumericalThreshold ℕ)
contradictory =
    record margin { value = 10 }
    ∷ record margin { value = 30 }
    ∷ record margin { operator = op_lte; value = 20 }
    ∷ []

unnoticed : thresholds_conflict naturals contradictory ≡ false
unfolding thresholds_conflict
unnoticed = refl

has_blocking_flags-collect_hitl_flags_example :
    has_blocking_flags (collect_hitl_flags naturals ascii (margin_fact ∷ []) 75 audited) ≡ (
      not (is_audited audited.verdict)
      || not (is_confident naturals 75 audited.rule)
      || any_of (λ t. not (is_mapped naturals ascii (margin_fact ∷ []) t)) rule.deterministic_logic
      || any_of (λ g. thresholds_conflict naturals g.1) (group_by_field rule.deterministic_logic [])
      || (is_empty rule.deterministic_logic && not (is_recommended rule.obligation_type)))
has_blocking_flags-collect_hitl_flags_example =
    has_blocking_flags-collect_hitl_flags naturals ascii (margin_fact ∷ []) 75 audited

-- A Rego module is as good as its rule's name here.
abbrev rego : ExtractedComplianceRule ℕ → List String → String
rego r fields = r.rule_id

compile_audited_rule_total_example :
    (result : CompilationResult String ℕ) × (compile_audited_rule naturals ascii
        (margin_fact ∷ [])
        rego
        75
        audited
      ≡ ok result)
    × (result.compiled
        ≡ not (
            has_blocking_flags (collect_hitl_flags naturals ascii (margin_fact ∷ []) 75 audited)
            || is_empty rule.deterministic_logic))
    × (is_present result.rego ≡ result.compiled)
    × (is_present result.json_logic ≡ result.compiled)
compile_audited_rule_total_example =
    compile_audited_rule_total naturals ascii (margin_fact ∷ []) rego 75 audited (refl, tt)
      ((λ h. absurd (cc)), ((λ h. absurd (cc)), tt)) (refl, (refl, tt))

abbrev compilation : CompilationResult String ℕ
compilation = record {
  rule_id = "r1";
  compiled = true;
  rego = some "r1";
  json_logic = some compiled_rule;
  hitl_flags = flag "r1" unresolved_entity advisory "Clearing Member" ∷ [];
}

compilation_of_rule :
    compile_audited_rule naturals ascii (margin_fact ∷ []) rego 75 audited ≡ ok compilation
unfolding compile_audited_rule insert
compilation_of_rule = refl

compiled_rule_approved_example :
    (is_audited audited.verdict ≡ true)
    × (is_confident naturals 75 audited.rule ≡ true)
    × (any_of (λ t. not (is_mapped naturals ascii (margin_fact ∷ []) t)) rule.deterministic_logic
        ≡ false)
    × (any_of (λ g. thresholds_conflict naturals g.1) (group_by_field rule.deterministic_logic [])
        ≡ false)
compiled_rule_approved_example =
    compiled_rule_approved naturals ascii (margin_fact ∷ []) rego 75 audited compilation
      compilation_of_rule refl

abbrev replayed : List (HistoricalTransaction × Decision)
replayed =
    (
      record { transaction_id = "t1"; broker_id = "b1"; old_decision = allow; evaluated_at = 1 },
      deny,
    )
    ∷ (
      record { transaction_id = "t2"; broker_id = "b1"; old_decision = deny; evaluated_at = 2 },
      flagged,
    )
    ∷ []

build_summary-build_outcomes_example :
    let s = build_summary (build_outcomes replayed) in
    (s.unchanged_count + s.new_failures + s.newly_passing_count + s.undefined_count
      ≡ length replayed)
    × (s.new_fail_count
          + s.newly_passing_count
          + count_if failing_undefined (build_outcomes replayed)
        ≡ s.old_fail_count + s.new_failures)
build_summary-build_outcomes_example = build_summary-build_outcomes replayed
