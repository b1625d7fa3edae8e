-- ===== src/Compiler/JsonLogic.antt =====
-- app/compiler/jsonlogic_compiler.py and jsonlogic_validator.py: a rule as a JSON-Logic tree, and
-- the checks that the pipeline makes of it. The field that `metric_field_name` derives from a metric
-- and its unit is the argument `field_name`, none where it raises UndefinedFactError. The template of
-- the violation message is left out.
use Prim.Native.String.{◌++◌ as append}
use reg_engine_ai.Base.{
  String, Bool, true, false, Option, none, some, List, [], ◌∷◌, map, Result, ok, err, ◌>>=◌, length,
  Dict, insert, is_empty, codes, str_eq, keep_if, not, if◌then◌else◌, ◌&&◌, ◌++◌,
}
use reg_engine_ai.Backtest.Json.{
  Numbers, Json, number, text, list, object, Items, nil, cons, Members, end, member, text_lt,
}
use reg_engine_ai.Compiler.Models.{
  ComparisonOperator, op_gte, op_gt, op_lte, op_lt, op_eq, op_range, TargetEntity,
  NumericalThreshold, ExtractedComplianceRule, JsonLogicRule,
}

-- UndefinedFactError, the failed `assert`, the ValueError of an empty rule, MalformedASTError
pub data CompileError : Type 0 where
  undefined_fact assertion_failed nothing_to_compile : CompileError
  malformed_ast : CompileError

-- `x or y` on a text that may be missing or empty
abbrev pub text_or : Option String → String → String
text_or none y = y
text_or (some x) y = if str_eq x "" then y else x

-- `operator.value`
abbrev pub operator_value : ComparisonOperator → String
operator_value op_gte = ">="
operator_value op_gt = ">"
operator_value op_lte = "<="
operator_value op_lt = "<"
operator_value op_eq = "=="
operator_value op_range = "range"

-- The entities of `sorted({...})`: in order, each once.
abbrev pub entity_name : TargetEntity → String
entity_name e = text_or e.normalized_entity e.raw_text

unfoldable pub insert_sorted : String → List String → List String
unfolding text_lt
insert_sorted s [] = s ∷ []
insert_sorted s (x ∷ xs) =
    let rest = insert_sorted s xs in
    if str_eq x s then x ∷ xs else if text_lt (codes s) (codes x) then s ∷ x ∷ xs else x ∷ rest

unfoldable pub sorted_set : List String → List String
unfolding insert_sorted
sorted_set [] = []
sorted_set (x ∷ xs) = insert_sorted x (sorted_set xs)

abbrev field_path : Option String → Result CompileError String
field_path none = err undefined_fact
field_path (some f) = ok (append "facts." f)

module _ {Number : Type 0} where
  -- `{k: v}` and `[a, b]`
  abbrev pub node : String → Json Number → Json Number
  node k v = object (member k v end)

  abbrev pub pair_of : Json Number → Json Number → Json Number
  pair_of a b = list (cons a (cons b nil))

  abbrev pub var_ : String → Json Number
  var_ path = node "var" (text path)

  abbrev pub items : List (Json Number) → Items Number
  items [] = nil
  items (x ∷ xs) = cons x (items xs)

  abbrev range_logic : String → Number → Option Number → Result CompileError (Json Number)
  range_logic path low none = err assertion_failed
  range_logic path low (some high) = ok (
      node "and" (
        pair_of (node ">=" (pair_of (var_ path) (number low)))
          (node "<=" (pair_of (var_ path) (number high)))))

  abbrev pub logic_for :
      ComparisonOperator → String → Number → Option Number → Result CompileError (Json Number)
  logic_for op_range path value value_upper = range_logic path value value_upper
  logic_for op path value value_upper =
      ok (node (operator_value op) (pair_of (var_ path) (number value)))

  -- the entities that have a name
  abbrev pub named_entities : ExtractedComplianceRule Number → List String
  named_entities rule = keep_if (λ s. not (str_eq s "")) (map entity_name rule.target_entities)

  unfoldable pub entity_names : ExtractedComplianceRule Number → List String
  unfolding sorted_set
  entity_names rule = sorted_set (named_entities rule)

  abbrev pub entity_clause : List String → List (Json Number)
  entity_clause [] = []
  entity_clause (e ∷ []) = node "==" (pair_of (var_ "entity_type") (text e)) ∷ []
  entity_clause (e ∷ f ∷ es) =
      node "in" (pair_of (var_ "entity_type") (list (items (map text (e ∷ f ∷ es))))) ∷ []

  abbrev pub join_clauses : List (Json Number) → Json Number
  join_clauses (c ∷ []) = c
  join_clauses cs = node "and" (list (items cs))

  module _ (field_name : String → String → Option String) where
    -- a missing or empty `canonical_fact` is derived from the metric
    unfoldable pub threshold_var_path : NumericalThreshold Number → Result CompileError String
    threshold_var_path t =
        let fact = text_or t.canonical_fact "" in
        if str_eq fact ""
        then field_path (field_name t.metric t.unit)
        else ok (append "facts." fact)

    unfoldable pub threshold_to_logic :
        NumericalThreshold Number → Result CompileError (Json Number)
    unfolding threshold_var_path
    threshold_to_logic t =
        threshold_var_path t >>= λ path. logic_for t.operator path t.value t.value_upper

    unfoldable pub threshold_clauses :
        List (NumericalThreshold Number) → Result CompileError (List (Json Number))
    unfolding threshold_to_logic
    threshold_clauses [] = ok []
    threshold_clauses (t ∷ ts) =
        threshold_to_logic t >>= λ c. threshold_clauses ts >>= λ cs. ok (c ∷ cs)

    unfoldable pub schema_from :
        List (NumericalThreshold Number) → Dict String → Result CompileError (Dict String)
    unfolding threshold_var_path
    schema_from [] schema = ok schema
    schema_from (t ∷ ts) schema =
        threshold_var_path t >>= λ path. schema_from ts (insert path "number" schema)

    unfoldable pub compile_rule_to_jsonlogic :
        ExtractedComplianceRule Number → Result CompileError (JsonLogicRule Number)
    unfolding threshold_clauses entity_names schema_from
    compile_rule_to_jsonlogic rule =
        if is_empty rule.deterministic_logic
        then err nothing_to_compile
        else threshold_clauses rule.deterministic_logic >>= λ clauses.
            schema_from rule.deterministic_logic (("entity_type", "string") ∷ []) >>= λ schema.
            ok record {
              rule_id = rule.rule_id;
              logic = join_clauses (entity_clause (entity_names rule) ++ clauses);
              data_schema = schema;
              thresholds_compiled = length rule.deterministic_logic;
            }

  -- `validate_json_logic_ast`
  unfoldable mutual
    pub validate_json_logic_ast : Json Number → Bool
    validate_json_logic_ast (list xs) = validate_items xs
    validate_json_logic_ast (object (member k v end)) =
        not (str_eq k "") && validate_json_logic_ast v
    validate_json_logic_ast (object _) = false
    validate_json_logic_ast v = true

    pub validate_items : Items Number → Bool
    validate_items nil = true
    validate_items (cons x xs) = validate_json_logic_ast x && validate_items xs

module _ {Number : Type 0} (num : Numbers Number) where
  -- `json.dumps(node, allow_nan=False)` refuses NaN and the infinities, and reads back the rest.
  unfoldable mutual
    pub validate_json_serializable : Json Number → Bool
    validate_json_serializable (number n) = num.is_finite n
    validate_json_serializable (list xs) = serializable_items xs
    validate_json_serializable (object ms) = serializable_members ms
    validate_json_serializable v = true

    pub serializable_items : Items Number → Bool
    serializable_items nil = true
    serializable_items (cons x xs) = validate_json_serializable x && serializable_items xs

    pub serializable_members : Members Number → Bool
    serializable_members end = true
    serializable_members (member k v ms) = validate_json_serializable v && serializable_members ms
