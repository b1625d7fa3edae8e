-- ===== src/Hitl/Gating.antt =====
-- An active rule has no review that is not resolved: what each operation keeps.
use reg_engine_ai.Base.{
  ℕ, String, ◌≡◌, refl, Bool, true, false, not, ◌&&◌, ◌||◌, Option, List, [], ◌∷◌, arith, ◌==◌,
  ==_iff, str_eq, all_of, update_row, update_where,
}
use reg_engine_ai.Hitl.Models.{HitlReview, CompiledRule, Db}
use reg_engine_ai.Hitl.Gate.{is_approved}
use reg_engine_ai.Hitl.GateLaws.{all_approved}
use reg_engine_ai.Hitl.Service.{is_attached, reviews_of, is_rule, activate, deactivate}

-- An active row of the rules has only resolved reviews.
abbrev pub gated : List HitlReview → CompiledRule → Bool
gated reviews r = not r.is_active || all_approved (reviews_of r.id reviews)

abbrev pub IsGated : Db → Type 0
IsGated db = all_of (gated db.reviews) db.rules ≡ true

-- A change of one review to one that is resolved, or detached from the rule, unsettles no rule.
pub still_approved :
    (k : ℕ) (p : HitlReview → Bool) (r' : HitlReview) (rs : List HitlReview)
    → (not (is_attached k r') || is_approved r'.status) ≡ true
    → all_approved (reviews_of k rs) ≡ true
    → all_approved (reviews_of k (update_row p (λ x. r') rs)) ≡ true
unfolding reviews_of
still_approved k p r' [] h a = refl
still_approved k p r' (r ∷ rs) h a = ground (arith, still_approved k p r' rs h)

module _ (p : HitlReview → Bool) (r' : HitlReview) (rs : List HitlReview) where
  abbrev after : List HitlReview
  after = update_row p (λ x. r') rs

  pub unchanged-gated :
      (rules : List CompiledRule)
      → ((k : ℕ) → (not (is_attached k r') || is_approved r'.status) ≡ true)
      → all_of (gated rs) rules ≡ true
      → all_of (gated after) rules ≡ true
  unchanged-gated [] h g = refl
  unchanged-gated (r ∷ rules) h g =
      ground (arith, unchanged-gated rules h, still_approved r.id p r' rs (h r.id))

  pub held-gated :
      (k : ℕ) (f : CompiledRule → CompiledRule) (rules : List CompiledRule)
      → ((r : CompiledRule) → (f r).is_active ≡ false)
      → ((j : ℕ) → (not (is_attached j r') || is_approved r'.status || k == j) ≡ true)
      → all_of (gated rs) rules ≡ true
      → all_of (gated after) (update_where (is_rule k) f rules) ≡ true
  held-gated k f [] i h g = refl
  held-gated k f (r ∷ rules) i h g = ground (
    arith,
    held-gated k f rules i h,
    still_approved r.id p r' rs,
    h r.id,
    i r,
    ==_iff r.id k,
    ==_iff k r.id,
  )

  pub activated-gated :
      (hash : Option String) (rule : CompiledRule) (rules : List CompiledRule)
      → all_approved (reviews_of rule.id after) ≡ true
      → ((k : ℕ) → (not (is_attached k r') || is_approved r'.status) ≡ true)
      → all_of (gated rs) rules ≡ true
      → all_of (gated after) (
          update_where (is_rule rule.id) (activate hash) (
            update_where
              (λ r. str_eq r.rule_id rule.rule_id && not (r.id == rule.id))
              deactivate
              rules))
        ≡ true
  unfolding activate deactivate
  activated-gated hash rule [] a h g = refl
  activated-gated hash rule (r ∷ rules) a h g = ground (
    arith,
    activated-gated hash rule rules a h,
    still_approved r.id p r' rs (h r.id),
    ==_iff r.id rule.id,
  )
