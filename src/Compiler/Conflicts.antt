-- ===== src/Compiler/Conflicts.antt =====
-- Which groups of thresholds `flag_conflicting_thresholds` takes for contradictory.
use reg_engine_ai.Base.{
  ◌≡◌, refl, Bool, true, false, ◌&&◌, List, [], ◌∷◌, All, ◌↔◌, length, ltb, is_empty, arith,
  All-weaken, ap, ◌∙◌, sym, subst, if◌then◌else◌, Bool-cases, inl, inr,
}
use reg_engine_ai.Backtest.Json.{Numbers}
use reg_engine_ai.Compiler.Models.{ComparisonOperator, NumericalThreshold}
use reg_engine_ai.Compiler.Flags.{
  is_lower, is_upper, lower_bounds, upper_bounds, min_from, max_from, bounds_conflict,
  thresholds_conflict,
}

-- The numbers of the thresholds are ordered: no NaN among them.
pub record IsOrdered {Number : Type 0} (num : Numbers Number) : Type 0 where
  pub irreflexive : (a : Number) → num.num_lt a a ≡ false
  pub transitive :
      (a b c : Number) → num.num_lt a b ≡ true → num.num_lt b c ≡ true → num.num_lt a c ≡ true
  pub comparable :
      (a b c : Number) → num.num_lt a b ≡ false → num.num_lt b c ≡ false → num.num_lt a c ≡ false

reversed : {Number : Type 0} → Numbers Number → Numbers Number
reversed num = record num { num_lt = λ a b. num.num_lt b a }

reversed-IsOrdered :
    {Number : Type 0} (num : Numbers Number) → IsOrdered num → IsOrdered (reversed num)
unfolding reversed
reversed-IsOrdered num order = record {
  irreflexive = order.irreflexive;
  transitive = λ a b c p q. order.transitive c b a q p;
  comparable = λ a b c p q. order.comparable c b a q p;
}

module _ {Number : Type 0} (num : Numbers Number) where
  min_from-All :
      (Q : Number → Type 0) (best : Number) (xs : List Number)
      → Q best
      → All Q xs
      → Q (min_from num best xs)
  unfolding min_from
  min_from-All Q best [] p h = p
  min_from-All Q best (x ∷ xs) p h = elim (Bool-cases (num.num_lt x best)) [
    | inl e ↦ rw e (min_from-All Q x xs h.0 h.1)
    | inr e ↦ rw e (min_from-All Q best xs p h.1)
  ]

  max_from-reversed :
      (best : Number) (xs : List Number) → max_from num best xs ≡ min_from (reversed num) best xs
  unfolding max_from min_from reversed
  max_from-reversed best [] = refl
  max_from-reversed best (x ∷ xs) = max_from-reversed (if num.num_lt best x then x else best) xs

module _ {Number : Type 0} (num : Numbers Number) (order : IsOrdered num) where
  asymmetric : (a b : Number) → num.num_lt a b ≡ true → num.num_lt b a ≡ false
  asymmetric a b h = elim (Bool-cases (num.num_lt b a)) [
    | inl e ↦ absurd (cc (order.transitive a b a h e, order.irreflexive a))
    | inr e ↦ e
  ]

  IsBound : Number → List Number → Type 0
  IsBound m xs = All (λ x. num.num_lt x m ≡ false) xs

  min_from_step :
      (best x : Number) (xs : List Number)
      → min_from num best (x ∷ xs) ≡ min_from num (if num.num_lt x best then x else best) xs
  unfolding min_from
  min_from_step best x xs = refl

  min_from-IsBound : (best : Number) (xs : List Number) → IsBound (min_from num best xs) (best ∷ xs)
  unfolding min_from IsBound
  min_from-IsBound best [] = (order.irreflexive best, tt)
  min_from-IsBound best (x ∷ xs) =
      let at : (b : Bool)
          → num.num_lt x best ≡ b
          → min_from num best (x ∷ xs) ≡ min_from num (if b then x else best) xs =
        λ b e. min_from_step best x xs ∙ ap (λ c. min_from num (if c then x else best) xs) e in
      elim (Bool-cases (num.num_lt x best)) [
        | inl e ↦
            let r = min_from-IsBound x xs in
            subst (λ m. IsBound m (best ∷ x ∷ xs)) (sym (at true e))
              (order.comparable best x _ (asymmetric x best e) r.0, (r.0, r.1))
        | inr e ↦
            let r = min_from-IsBound best xs in
            subst (λ m. IsBound m (best ∷ x ∷ xs)) (sym (at false e))
              (r.0, (order.comparable x best _ e r.0, r.1))
      ]

module _ {Number : Type 0} (num : Numbers Number) (order : IsOrdered num) where
  upper_bound :
      (best : Number) (xs : List Number)
      → All (λ x. num.num_lt (max_from num best xs) x ≡ false) (best ∷ xs)
  unfolding IsBound reversed max_from min_from
  upper_bound best xs =
      rw (max_from-reversed num best xs)
        (min_from-IsBound (reversed num) (reversed-IsOrdered num order) best xs)

  apart :
      (m l u M : Number)
      → num.num_lt M m ≡ true
      → num.num_lt l m ≡ false
      → num.num_lt M u ≡ false
      → num.num_lt u l ≡ true
  apart m l u M h p q = elim (Bool-cases (num.num_lt u l)) [
    | inl e ↦ e
    | inr e ↦ absurd (cc (h, order.comparable M l m (order.comparable M u l q e) p))
  ]

  -- The least lower bound exceeds the greatest upper bound where each one exceeds each other.
  bounds_conflict_iff :
      (ls us : List Number)
      → (bounds_conflict num ls us ≡ true) ↔ (
          (is_empty ls ≡ false)
          × (is_empty us ≡ false)
          × All (λ l. All (λ u. num.num_lt u l ≡ true) us) ls)
  unfolding IsBound reversed
  bounds_conflict_iff [] us = ground arith
  bounds_conflict_iff (l ∷ ls) [] = ground arith
  bounds_conflict_iff (l ∷ ls) (u ∷ us) = (
    λ h. (
      refl,
      refl,
      All-weaken (l ∷ ls)
          (λ x p. All-weaken (u ∷ us) (λ y q. apart _ x y _ h p q) (upper_bound u us))
          (min_from-IsBound num order l ls),
    ),
    λ h.
        let Q : Number → Type 0 = λ m. All (λ x. num.num_lt x m ≡ true) (u ∷ us) in
        let a = min_from-All num Q l ls h.2.0 h.2.1 in
        subst (λ M. num.num_lt M (min_from num l ls) ≡ true) (sym (max_from-reversed num u us))
          (min_from-All (reversed num) (λ M. num.num_lt M (min_from num l ls) ≡ true) u us a.0 a.1),
  )

  one_sided : (op : ComparisonOperator) → (is_lower op && is_upper op) ≡ false
  one_sided op = ground arith

  two_thresholds :
      (ts : List (NumericalThreshold Number))
      → is_empty (lower_bounds ts) ≡ false
      → is_empty (upper_bounds ts) ≡ false
      → ltb 1 (length ts) ≡ true
  two_thresholds [] p q = absurd (cc)
  two_thresholds (t ∷ []) p q = absurd (ground (arith, one_sided t.operator))
  two_thresholds (t ∷ x ∷ ts) p q = ground arith

  -- The thresholds of one metric and unit are flagged exactly where there are lower and upper bounds
  -- among them and every lower bound exceeds every upper bound, when their numbers are ordered.
  pub thresholds_conflict_iff :
      (ts : List (NumericalThreshold Number))
      → (thresholds_conflict num ts ≡ true) ↔ (
          (is_empty (lower_bounds ts) ≡ false)
          × (is_empty (upper_bounds ts) ≡ false)
          × All (λ l. All (λ u. num.num_lt u l ≡ true) (upper_bounds ts)) (lower_bounds ts))
  unfolding thresholds_conflict
  thresholds_conflict_iff ts =
      let r = bounds_conflict_iff (lower_bounds ts) (upper_bounds ts) in
      (λ h. r.0 (ground (arith, h)), λ h. rw (two_thresholds ts h.0 h.1) (r.1 h))
