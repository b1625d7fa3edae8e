-- ===== src/Compiler/Trees.antt =====
-- The trees that the compiler makes are JSON-Logic and JSON, where the bounds are finite and every
-- fact has a field.
use Prim.Native.String.{◌++◌ as append}
use reg_engine_ai.Base.{
  length, String, ◌≡◌, refl, Bool, true, false, ◌&&◌, Option, none, some, List, [], ◌∷◌, ◌++◌, map,
  ok, All, is_empty, arith, Bool-cases, inl, inr, str_eq, Dict, insert,
}
use reg_engine_ai.Backtest.Json.{Numbers, Json, number, text, list}
use reg_engine_ai.Compiler.Models.{
  ComparisonOperator, op_gte, op_gt, op_lte, op_lt, op_eq, op_range, NumericalThreshold,
  ExtractedComplianceRule, JsonLogicRule,
}
use reg_engine_ai.Compiler.JsonLogic.{
  node, pair_of, var_, items, threshold_var_path, logic_for, threshold_to_logic, threshold_clauses,
  entity_names, entity_clause, schema_from, join_clauses, text_or, compile_rule_to_jsonlogic,
  validate_json_logic_ast, validate_json_serializable,
}

both_true : {a b : Bool} → (a && b) ≡ true → (a ≡ true) × (b ≡ true)
both_true h = ground arith

append-All {ℓ κ} :
    {A : Type ℓ} (P : A → Type κ) (xs ys : List A) → All P xs → All P ys → All P (xs ++ ys)
append-All P [] ys h k = k
append-All P (x ∷ xs) ys h k = (h.0, append-All P xs ys h.1 k)

module _ {Number : Type 0} (field_name : String → String → Option String) where
  -- The field of a threshold is known.
  abbrev pub HasField : NumericalThreshold Number → Type 0
  HasField t = (name : String) × (field_name t.metric t.unit ≡ some name)

  threshold_path :
      (t : NumericalThreshold Number)
      → HasField t
      → (path : String) × (threshold_var_path field_name t ≡ ok path)
  unfolding threshold_var_path
  threshold_path t (name, e) = elim (Bool-cases (str_eq (text_or t.canonical_fact "") "")) [
    | inl h ↦ (append "facts." name, rw (h, e) refl)
    | inr h ↦ (append "facts." (text_or t.canonical_fact ""), rw h refl)
  ]

  compiles_schema :
      (ts : List (NumericalThreshold Number)) (schema : Dict String)
      → All HasField ts
      → (after : Dict String) × (schema_from field_name ts schema ≡ ok after)
  unfolding schema_from
  compiles_schema [] schema f = (schema, refl)
  compiles_schema (t ∷ ts) schema f =
      let (path, p) = threshold_path t f.0 in
      let (after, e) = compiles_schema ts (insert path "number" schema) f.1 in (after, rw p e)

module _ {Number : Type 0} (num : Numbers Number) where
  abbrev is_finite_upper : Option Number → Bool
  is_finite_upper none = false
  is_finite_upper (some upper) = num.is_finite upper

  -- A finite bound, and a finite upper one for a range.
  abbrev pub is_complete : ComparisonOperator → Number → Option Number → Bool
  is_complete op_range value upper = num.is_finite value && is_finite_upper upper
  is_complete op value upper = num.is_finite value

  abbrev pub IsSound : Json Number → Type 0
  IsSound c = (validate_json_logic_ast c ≡ true) × (validate_json_serializable num c ≡ true)

  items-IsSound : (cs : List (Json Number)) → All (IsSound) cs → IsSound (list (items cs))
  unfolding validate_json_logic_ast validate_json_serializable
  items-IsSound [] h = (refl, refl)
  items-IsSound (c ∷ cs) h = ground (arith, h.0, items-IsSound cs h.1)

  node-IsSound :
      (k : String) (c : Json Number) → str_eq k "" ≡ false → IsSound c → IsSound (node k c)
  unfolding validate_json_logic_ast validate_json_serializable
  node-IsSound k c e h = ground (arith, e, h.0, h.1)

  comparison-IsSound :
      (k path : String) (n : Number)
      → str_eq k "" ≡ false
      → num.is_finite n ≡ true
      → IsSound (node k (pair_of (var_ path) (number n)))
  unfolding validate_json_logic_ast validate_json_serializable
  comparison-IsSound k path n e f = ground (arith, e, f)

  logic_for-IsSound :
      (op : ComparisonOperator) (path : String) (value : Number) (upper : Option Number)
      → is_complete op value upper ≡ true
      → (c : Json Number) × (logic_for op path value upper ≡ ok c) × IsSound c
  logic_for-IsSound op_gte path value upper h = (_, refl, comparison-IsSound ">=" path value refl h)
  logic_for-IsSound op_gt path value upper h = (_, refl, comparison-IsSound ">" path value refl h)
  logic_for-IsSound op_lte path value upper h = (_, refl, comparison-IsSound "<=" path value refl h)
  logic_for-IsSound op_lt path value upper h = (_, refl, comparison-IsSound "<" path value refl h)
  logic_for-IsSound op_eq path value upper h = (_, refl, comparison-IsSound "==" path value refl h)
  logic_for-IsSound op_range path value none h = absurd (ground (arith, h))
  logic_for-IsSound op_range path value (some upper) h =
      let (p, q) = both_true h in
      (
        _,
        refl,
        node-IsSound "and" _ refl (
            items-IsSound
              (node ">=" (pair_of (var_ path) (number value))
                ∷ node "<=" (pair_of (var_ path) (number upper))
                ∷ [])
              (
                comparison-IsSound ">=" path value refl p,
                (comparison-IsSound "<=" path upper refl q, tt),
              )),
      )

  texts-IsSound : (es : List String) → All IsSound (map text es)
  unfolding validate_json_logic_ast validate_json_serializable
  texts-IsSound [] = tt
  texts-IsSound (e ∷ es) = ((refl, refl), texts-IsSound es)

  entity_clause-IsSound : (es : List String) → All IsSound (entity_clause es)
  unfolding validate_json_logic_ast validate_json_serializable
  entity_clause-IsSound [] = tt
  entity_clause-IsSound (e ∷ []) = ((refl, refl), tt)
  entity_clause-IsSound (e ∷ f ∷ es) =
      let h = items-IsSound (map text (e ∷ f ∷ es)) (texts-IsSound (e ∷ f ∷ es)) in
      (ground (arith, h.0, h.1), tt)

  join_clauses-IsSound : (cs : List (Json Number)) → All IsSound cs → IsSound (join_clauses cs)
  join_clauses-IsSound [] h = node-IsSound "and" _ refl (items-IsSound [] tt)
  join_clauses-IsSound (c ∷ []) h = h.0
  join_clauses-IsSound (c ∷ d ∷ cs) h = node-IsSound "and" _ refl (items-IsSound (c ∷ d ∷ cs) h)

  module _ (field_name : String → String → Option String) where
    compiles_clauses :
        (ts : List (NumericalThreshold Number))
        → All (HasField field_name) ts
        → All (λ t. is_complete t.operator t.value t.value_upper ≡ true) ts
        → (cs : List (Json Number)) × (threshold_clauses field_name ts ≡ ok cs) × All IsSound cs
    unfolding threshold_clauses threshold_to_logic
    compiles_clauses [] f h = ([], refl, tt)
    compiles_clauses (t ∷ ts) f h =
        let (path, p) = threshold_path field_name t f.0 in
        let (c, q, s) = logic_for-IsSound t.operator path t.value t.value_upper h.0 in
        let (cs, r, rest) = compiles_clauses ts f.1 h.1 in (c ∷ cs, rw (p, q, r) refl, (s, rest))

    pub compiles_rule :
        (rule : ExtractedComplianceRule Number)
        → is_empty rule.deterministic_logic ≡ false
        → All (HasField field_name) rule.deterministic_logic
        → All (λ t. is_complete t.operator t.value t.value_upper ≡ true) rule.deterministic_logic
        → (r : JsonLogicRule Number) × (compile_rule_to_jsonlogic field_name rule ≡ ok r)
          × IsSound r.logic
    unfolding compile_rule_to_jsonlogic
    compiles_rule rule e f h =
        let (cs, p, s) = compiles_clauses rule.deterministic_logic f h in
        let (schema, q) =
          compiles_schema field_name rule.deterministic_logic (("entity_type", "string") ∷ []) f in
        let all_clauses = entity_clause (entity_names rule) ++ cs in
        let r : JsonLogicRule Number = record {
          rule_id = rule.rule_id;
          logic = join_clauses all_clauses;
          data_schema = schema;
          thresholds_compiled = length rule.deterministic_logic;
        } in
        (
          r,
          rw (e, p, q) refl,
          join_clauses-IsSound all_clauses (
              append-All IsSound (entity_clause (entity_names rule)) cs
                (entity_clause-IsSound (entity_names rule)) s),
        )
