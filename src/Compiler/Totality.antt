-- ===== src/Compiler/Totality.antt =====
-- A rule that passes the gate compiles: no exception of the two compilers or of the validators is
-- reached.
use reg_engine_ai.Base.{
  String, ◌≡◌, refl, subst, Bool, true, false, not, ◌||◌, Option, none, some, List, [], ◌∷◌, ok,
  err, All, any_of, find_row, is_empty, arith, Bool-cases, Option-cases, inl, inr, str_eq, codes,
  if◌then◌else◌,
}
use reg_engine_ai.Backtest.Json.{Numbers, Json}
use reg_engine_ai.Compiler.Models.{
  ComparisonOperator, op_gte, op_gt, op_lte, op_lt, op_eq, op_range, NumericalThreshold,
  ExtractedComplianceRule, AuditedComplianceRule,
}
use reg_engine_ai.Compiler.JsonLogic.{undefined_fact, text_or}
use reg_engine_ai.Compiler.Trees.{HasField, IsSound, is_complete, compiles_rule}
use reg_engine_ai.Compiler.Facts.{
  Unicode, CanonicalFact, match_fact, or_later, has_identifier, is_named, strip,
  normalize_metric_text, allows_unit, field_of, checked, resolve_canonical_fact, metric_field_name,
}
use reg_engine_ai.Compiler.Rego.{
  check_upper, pass_condition, threshold_field, condition_fields, compile_rule_to_rego,
}
use reg_engine_ai.Compiler.Flags.{has_blocking_flags, collect_hitl_flags}
use reg_engine_ai.Compiler.Gate.{is_valid, is_mapped, unblocked}
use reg_engine_ai.Compiler.Pipeline.{CompilationResult, validated, compile_audited_rule}

abbrev pub is_present {ℓ} : {A : Type ℓ} → Option A → Bool
is_present none = false
is_present (some a) = true

both_false : {a b : Bool} → (a || b) ≡ false → (a ≡ false) × (b ≡ false)
both_false h = ground arith

true_of_not : {a : Bool} → not a ≡ false → a ≡ true
true_of_not h = ground arith

some-injective {ℓ} : {A : Type ℓ} {a b : A} → ◌≡◌ {A = Option A} (some a) (some b) → a ≡ b
some-injective e = cc

find_row-All {ℓ κ} :
    {A : Type ℓ} (P : A → Type κ) (p : A → Bool) (xs : List A) {a : A}
    → All P xs
    → find_row p xs ≡ some a
    → P a
find_row-All P p [] h e = absurd (cc)
find_row-All P p (x ∷ xs) h e = elim (Bool-cases (p x)) [
  | inl q ↦ subst P (some-injective (rw q at e)) h.0
  | inr q ↦ find_row-All P p xs h.1 (rw q at e)
]

module _ {Number : Type 0} (num : Numbers Number) (uni : Unicode)
    (catalogue : List (CanonicalFact Number)) where
  abbrev pub HasIdentifier : CanonicalFact Number → Type 0
  HasIdentifier f = str_eq f.identifier "" ≡ false

  if_some :
      {A : Type 0} (b : Bool) (o : Option A) {a : A} → (if b then none else o) ≡ some a → o ≡ some a
  if_some b o e = ground arith

  or_later-All :
      (P : CanonicalFact Number → Type 0) (o q : Option (CanonicalFact Number))
      {f : CanonicalFact Number}
      → ((g : CanonicalFact Number) → o ≡ some g → P g)
      → ((g : CanonicalFact Number) → q ≡ some g → P g)
      → or_later o q ≡ some f
      → P f
  or_later-All P none q {f} a b e = b f e
  or_later-All P (some g) q {f} a b e = a f e

  match_fact-All :
      (P : CanonicalFact Number → Type 0) (metric : String) {f : CanonicalFact Number}
      → All P catalogue
      → match_fact uni catalogue metric ≡ some f
      → P f
  unfolding match_fact
  match_fact-All P metric h e =
      let clean = normalize_metric_text uni (codes metric) in
      let a = find_row (has_identifier (strip uni (codes metric))) catalogue in
      let b = find_row (has_identifier clean) catalogue in
      let c = find_row (is_named clean) catalogue in
      or_later-All P a (or_later b c) (λ g. find_row-All P _ catalogue h)
        (λ g.
          or_later-All P b c (λ k. find_row-All P _ catalogue h)
            (λ k. find_row-All P _ catalogue h))
        (if_some (is_empty (strip uni (codes metric))) (or_later a (or_later b c)) e)

  unmapped :
      (o : Option (CanonicalFact Number)) (unit : String) (value upper : Option Number)
      → o ≡ none
      → is_valid (checked uni num o unit value upper) ≡ false
  unmapped o unit value upper p = rw p refl

  checked_field :
      (o : Option (CanonicalFact Number)) (f : CanonicalFact Number) (unit : String)
      (value upper : Option Number)
      → o ≡ some f
      → is_valid (checked uni num o unit value upper) ≡ true
      → str_eq f.identifier "" ≡ false
      → field_of uni num (checked uni num o unit none none) ≡ some f.identifier
  checked_field o f unit value upper p h e = rw p (elim (Bool-cases (allows_unit uni f unit)) [
    | inl a ↦ rw (a, e) refl
    | inr a ↦ absurd (cc (rw (p, a) at h))
  ])

  mapped_field :
      (t : NumericalThreshold Number)
      → All HasIdentifier catalogue
      → is_mapped num uni catalogue t ≡ true
      → HasField (metric_field_name uni num catalogue) t
  unfolding metric_field_name resolve_canonical_fact
  mapped_field t h e = elim (Option-cases (match_fact uni catalogue t.metric)) [
    | inl p ↦ absurd (cc (unmapped _ t.unit (some t.value) t.value_upper p, e))
    | inr (f, p) ↦ (
      f.identifier,
      checked_field _ f t.unit (some t.value) t.value_upper p e
          (match_fact-All HasIdentifier t.metric h p),
    )
  ]

  validated_lem :
      {Rego : Type 0} (render : ExtractedComplianceRule Number → List String → Rego)
      (c : Json Number)
      → IsSound num c
      → validated num uni catalogue render c ≡ ok tt
  validated_lem render c h = rw (h.0, h.1) refl

  mapped_fields :
      (ts : List (NumericalThreshold Number))
      → All HasIdentifier catalogue
      → any_of (λ t. not (is_mapped num uni catalogue t)) ts ≡ false
      → All (HasField (metric_field_name uni num catalogue)) ts
  mapped_fields [] h e = tt
  mapped_fields (t ∷ ts) h e =
      let (p, q) = both_false e in (mapped_field t h (true_of_not p), mapped_fields ts h q)

  -- A fact that a threshold names is one of the taxonomy.
  abbrev pub NamesKnownFact : NumericalThreshold Number → Type 0
  NamesKnownFact t =
      str_eq (text_or t.canonical_fact "") "" ≡ false
      → any_of (λ f. str_eq f.identifier (text_or t.canonical_fact "")) catalogue ≡ true

  upper_lem :
      (op : ComparisonOperator) (value : Number) (upper : Option Number) (field : String)
      → is_complete num op value upper ≡ true
      → check_upper (metric_field_name uni num catalogue) catalogue op upper field ≡ ok field
  upper_lem op_gte value upper field h = refl
  upper_lem op_gt value upper field h = refl
  upper_lem op_lte value upper field h = refl
  upper_lem op_lt value upper field h = refl
  upper_lem op_eq value upper field h = refl
  upper_lem op_range value none field h = absurd (ground (arith, h))
  upper_lem op_range value (some u) field h = refl

  rego_condition :
      (t : NumericalThreshold Number)
      → HasField (metric_field_name uni num catalogue) t
      → NamesKnownFact t
      → is_complete num t.operator t.value t.value_upper ≡ true
      → (field : String) × (pass_condition (metric_field_name uni num catalogue) catalogue t
          ≡ ok field)
  unfolding pass_condition threshold_field
  rego_condition t (name, e) known c =
      let fact = text_or t.canonical_fact "" in
      elim (Bool-cases (str_eq fact "")) [
        | inl h ↦ (name, rw (h, e) (upper_lem t.operator t.value t.value_upper name c))
        | inr h ↦ (fact, rw (h, known h) (upper_lem t.operator t.value t.value_upper fact c))
      ]

  rego_conditions :
      (ts : List (NumericalThreshold Number))
      → All (HasField (metric_field_name uni num catalogue)) ts
      → All NamesKnownFact ts
      → All (λ t. is_complete num t.operator t.value t.value_upper ≡ true) ts
      → (fields : List String) × (condition_fields
            (metric_field_name uni num catalogue)
            catalogue
            ts
          ≡ ok fields)
  unfolding condition_fields
  rego_conditions [] f k c = ([], refl)
  rego_conditions (t ∷ ts) f k c =
      let (field, p) = rego_condition t f.0 k.0 c.0 in
      let (fields, q) = rego_conditions ts f.1 k.1 c.1 in (field ∷ fields, rw (p, q) refl)

  rego_compiles :
      {Rego : Type 0} (render : ExtractedComplianceRule Number → List String → Rego)
      (rule : ExtractedComplianceRule Number) {fields : List String}
      → is_empty rule.deterministic_logic ≡ false
      → condition_fields (metric_field_name uni num catalogue) catalogue rule.deterministic_logic
        ≡ ok fields
      → compile_rule_to_rego (metric_field_name uni num catalogue) catalogue render rule
        ≡ ok (render rule fields)
  unfolding compile_rule_to_rego
  rego_compiles render rule e f = rw (e, f) refl

  -- A rule whose thresholds name only facts of the taxonomy, or none, compiles if it passes the
  -- gate: the result says that it is compiled just where no flag blocks it and it has thresholds,
  -- and then it has both the Rego module and the JSON-Logic rule. The bounds are finite, a range has
  -- an upper one, and the identifiers of the taxonomy are not empty.
  pub compile_audited_rule_total :
      {Rego : Type 0} (render : ExtractedComplianceRule Number → List String → Rego)
      (threshold : Number) (a : AuditedComplianceRule Number)
      → All HasIdentifier catalogue
      → All NamesKnownFact a.rule.deterministic_logic
      → All
          (λ t. is_complete num t.operator t.value t.value_upper ≡ true)
          a.rule.deterministic_logic
      → (result : CompilationResult Rego Number) × (compile_audited_rule num uni catalogue render
            threshold a
          ≡ ok result)
        × (result.compiled
            ≡ not (
                has_blocking_flags (collect_hitl_flags num uni catalogue threshold a)
                || is_empty a.rule.deterministic_logic))
        × (is_present result.rego ≡ result.compiled)
        × (is_present result.json_logic ≡ result.compiled)
  unfolding compile_audited_rule
  compile_audited_rule_total render threshold a i k c =
      let flags = collect_hitl_flags num uni catalogue threshold a in
      elim (Bool-cases (has_blocking_flags flags || is_empty a.rule.deterministic_logic)) [
        | inl h ↦
            let result : CompilationResult _ Number = record {
              rule_id = a.rule.rule_id;
              compiled = false;
              rego = none;
              json_logic = none;
              hitl_flags = flags;
            } in
            (result, rw h refl, rw h refl, refl, refl)
        | inr h ↦
            let (p, empty) = both_false h in
            let fields =
              mapped_fields a.rule.deterministic_logic i
                (unblocked num uni catalogue threshold a p).2 in
            let (logic, q, s) =
              compiles_rule num (metric_field_name uni num catalogue) a.rule empty fields c in
            let (names, r) = rego_conditions a.rule.deterministic_logic fields k c in
            let result : CompilationResult _ Number = record {
              rule_id = a.rule.rule_id;
              compiled = true;
              rego = some (render a.rule names);
              json_logic = some logic;
              hitl_flags = flags;
            } in
            (
              result,
              rw (h, rego_compiles render a.rule empty r, q, validated_lem render logic.logic s)
                  refl,
              rw h refl,
              refl,
              refl,
            )
      ]

  -- A rule that passes the gate raises where its first threshold names a fact that the taxonomy
  -- does not have.
  pub compile_audited_rule_raises :
      {Rego : Type 0} (render : ExtractedComplianceRule Number → List String → Rego)
      (threshold : Number) (a : AuditedComplianceRule Number) (t : NumericalThreshold Number)
      (ts : List (NumericalThreshold Number))
      → a.rule.deterministic_logic ≡ t ∷ ts
      → has_blocking_flags (collect_hitl_flags num uni catalogue threshold a) ≡ false
      → str_eq (text_or t.canonical_fact "") "" ≡ false
      → any_of (λ f. str_eq f.identifier (text_or t.canonical_fact "")) catalogue ≡ false
      → compile_audited_rule num uni catalogue render threshold a ≡ err undefined_fact
  unfolding compile_audited_rule compile_rule_to_rego condition_fields pass_condition
      threshold_field
  compile_audited_rule_raises render threshold a t ts e no_flag named unknown =
      rw (no_flag, e, named, unknown) refl
