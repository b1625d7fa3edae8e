-- ===== src/Compiler/Thresholds.antt =====
-- A compiled threshold against its reading: the fact is a number that stands to the bound as the
-- operator says.
use reg_engine_ai.Base.{
  ◌≡◌, refl, ap, ◌∙◌, String, Bool, true, false, ◌&&◌, Option, none, some, List, [], ◌∷◌, ok, All,
  ◌↔◌, bind_value, ok-injective, arith, sym, subst,
}
use reg_engine_ai.Backtest.Json.{
  Numbers, Json, number, eq, ge, gt, le, lt, as_number, compare_numbers,
}
use reg_engine_ai.Backtest.Evaluator.{resolve_var}
use reg_engine_ai.Compiler.Models.{
  ComparisonOperator, op_gte, op_gt, op_lte, op_lt, op_eq, op_range, NumericalThreshold,
}
use reg_engine_ai.Compiler.JsonLogic.{
  node, pair_of, var_, threshold_var_path, logic_for, threshold_to_logic, threshold_clauses,
}
use reg_engine_ai.Compiler.Meaning.{IsSatisfied, IsSatisfied-comparison, IsSatisfied-and}

some-injective : {A : Type 0} {a b : A} → ◌≡◌ {A = Option A} (some a) (some b) → a ≡ b
some-injective e = cc

and_parts : {a b : Bool} → (a && b) ≡ true → (a ≡ true) × (b ≡ true)
and_parts h = ground arith

module _ {Number : Type 0} (num : Numbers Number) where
  abbrev within : Option Number → Number → Number → Bool
  within none value n = false
  within (some upper) value n = compare_numbers num ge n value && compare_numbers num le n upper

  -- The reading of a threshold, apart from any tree.
  abbrev pub meets : ComparisonOperator → Number → Option Number → Number → Bool
  meets op_gte value upper n = compare_numbers num ge n value
  meets op_gt value upper n = compare_numbers num gt n value
  meets op_lte value upper n = compare_numbers num le n value
  meets op_lt value upper n = compare_numbers num lt n value
  meets op_eq value upper n = compare_numbers num eq n value
  meets op_range value upper n = within upper value n

  abbrev NumberAt : Json Number → String → (Number → Bool) → Type 0
  NumberAt d path test =
      (v : Json Number) × (n : Number) × (resolve_var path d ≡ ok v)
      × (as_number num v ≡ some n)
      × (test n ≡ true)

  both_at :
      (d : Json Number) (path : String) (p q : Number → Bool)
      → NumberAt d path p
      → NumberAt d path q
      → NumberAt d path (λ n. p n && q n)
  both_at d path p q (v, n, a, b, c) (w, m, x, y, z) =
      let e : v ≡ w = ok-injective (sym a ∙ x) in
      let f : n ≡ m = some-injective (sym b ∙ ap (as_number num) e ∙ y) in
      (v, n, a, b, ground (arith, subst (λ k. q k ≡ true) (sym f) z))

  IsSatisfied-logic :
      (op : ComparisonOperator) (path : String) (value : Number) (upper : Option Number)
      (d c : Json Number)
      → logic_for op path value upper ≡ ok c
      → IsSatisfied num d c ↔ NumberAt d path (meets op value upper)
  IsSatisfied-logic op_gte path value upper d c h =
      rw (← ok-injective h) (IsSatisfied-comparison num ge ">=" path value d refl)
  IsSatisfied-logic op_gt path value upper d c h =
      rw (← ok-injective h) (IsSatisfied-comparison num gt ">" path value d refl)
  IsSatisfied-logic op_lte path value upper d c h =
      rw (← ok-injective h) (IsSatisfied-comparison num le "<=" path value d refl)
  IsSatisfied-logic op_lt path value upper d c h =
      rw (← ok-injective h) (IsSatisfied-comparison num lt "<" path value d refl)
  IsSatisfied-logic op_eq path value upper d c h =
      rw (← ok-injective h) (IsSatisfied-comparison num eq "==" path value d refl)
  IsSatisfied-logic op_range path value none d c h = absurd (cc)
  IsSatisfied-logic op_range path value (some upper) d c h =
      let low = IsSatisfied-comparison num ge ">=" path value d refl in
      let high = IsSatisfied-comparison num le "<=" path upper d refl in
      let both =
        IsSatisfied-and num
          (node ">=" (pair_of (var_ path) (number value))
            ∷ node "<=" (pair_of (var_ path) (number upper))
            ∷ [])
          d in
      rw (← ok-injective h) (
        (
          λ s. let a = both.0 s in both_at d path _ _ (low.0 a.0) (high.0 a.1.0),
          λ t.
              let (y, z) = and_parts t.4 in
              both.1 (low.1 (t.0, t.1, t.2, t.3, y), (high.1 (t.0, t.1, t.2, t.3, z), tt)),
        ))

  module _ (field_name : String → String → Option String) where
    -- The fact that a threshold names is a number that meets it.
    abbrev pub IsMet : Json Number → NumericalThreshold Number → Type 0
    IsMet d t =
        (path : String) × (threshold_var_path field_name t ≡ ok path)
        × NumberAt d path (meets t.operator t.value t.value_upper)

    IsSatisfied-threshold :
        (t : NumericalThreshold Number) (d c : Json Number)
        → threshold_to_logic field_name t ≡ ok c
        → IsSatisfied num d c ↔ IsMet d t
    unfolding threshold_to_logic
    IsSatisfied-threshold t d c h =
        let (path, p, q) = bind_value (threshold_var_path field_name t) _ h in
        let s = IsSatisfied-logic t.operator path t.value t.value_upper d c q in
        (λ x. (path, p, s.0 x), λ (path', p', x). s.1 (rw (ok-injective (sym p ∙ p')) x))

    pub IsSatisfied-thresholds :
        (ts : List (NumericalThreshold Number)) (d : Json Number) (cs : List (Json Number))
        → threshold_clauses field_name ts ≡ ok cs
        → All (IsSatisfied num d) cs ↔ All (IsMet d) ts
    unfolding threshold_clauses
    IsSatisfied-thresholds [] d cs h = rw (← ok-injective h) (λ x. tt, λ x. tt)
    IsSatisfied-thresholds (t ∷ ts) d cs h =
        let (c, p, q) = bind_value (threshold_to_logic field_name t) _ h in
        let (rest, r, e) = bind_value (threshold_clauses field_name ts) _ q in
        let one = IsSatisfied-threshold t d c p in
        let others = IsSatisfied-thresholds ts d rest r in
        rw (← ok-injective e) ((λ x. (one.0 x.0, others.0 x.1), λ x. (one.1 x.0, others.1 x.1)))
