-- ===== src/Execution/Lookups.antt =====
-- What the registry finds after a registration or a removal.
use reg_engine_ai.Base.{
  String, ◌≡◌, refl, Bool, true, false, not, ◌&&◌, ◌||◌, none, List, [], ◌∷◌, ◌++◌, arith, any_of,
  is_empty, lookup, is_member, lookup-insert, str_eq, eq_iff,
}
use reg_engine_ai.Execution.Registry.{
  PolicyEntry, Registry, wildcard, entries_at, without_rule, register_at, register_under, register,
  unregister, dedupe, policies_for,
}

abbrev pub has_rule : String → List PolicyEntry → Bool
has_rule rule_id = any_of (λ e. str_eq e.rule_id rule_id)

has_rule-dedupe :
    (id : String) (seen : List String) (es : List PolicyEntry)
    → has_rule id (dedupe seen es) ≡ (has_rule id es && not (is_member id seen))
unfolding dedupe is_member
has_rule-dedupe id seen [] = refl
has_rule-dedupe id seen (e ∷ es) = ground (
  arith,
  has_rule-dedupe id seen es,
  has_rule-dedupe id (e.rule_id ∷ seen) es,
  eq_iff e.rule_id id,
)

has_rule-append :
    (id : String) (es fs : List PolicyEntry)
    → has_rule id (es ++ fs) ≡ (has_rule id es || has_rule id fs)
has_rule-append id [] fs = refl
has_rule-append id (e ∷ es) fs = ground (arith, has_rule-append id es fs)

-- A rule applies to an entity type exactly when it is stored under the type or under the wildcard.
pub has_rule-policies_for :
    (id k : String) (r : Registry)
    → has_rule id (policies_for k r)
      ≡ (has_rule id (entries_at k r) || has_rule id (entries_at wildcard r))
unfolding policies_for is_member
has_rule-policies_for id k r = ground (
  arith,
  has_rule-dedupe id [] (entries_at k r ++ entries_at wildcard r),
  has_rule-append id (entries_at k r) (entries_at wildcard r),
)

has_rule-without_rule :
    (id j : String) (es : List PolicyEntry)
    → has_rule id (without_rule j es) ≡ (not (str_eq j id) && has_rule id es)
unfolding without_rule
has_rule-without_rule id j [] = ground arith
has_rule-without_rule id j (e ∷ es) =
    ground
      (arith, has_rule-without_rule id j es, eq_iff e.rule_id j, eq_iff e.rule_id id, eq_iff j id)

has_rule-register_at :
    (id k j : String) (e : PolicyEntry) (r : Registry)
    → has_rule id (entries_at k (register_at e j r))
      ≡ ((str_eq j k && str_eq e.rule_id id) || has_rule id (entries_at k r))
unfolding entries_at register_at
has_rule-register_at id k j e r = ground (
  arith,
  lookup-insert j k (without_rule e.rule_id (entries_at j r) ++ e ∷ []) r,
  has_rule-append id (without_rule e.rule_id (entries_at j r)) (e ∷ []),
  has_rule-without_rule id e.rule_id (entries_at j r),
  eq_iff j k,
  eq_iff e.rule_id id,
)

has_rule-register_under :
    (id k : String) (e : PolicyEntry) (ks : List String) (r : Registry)
    → has_rule id (entries_at k (register_under e ks r))
      ≡ ((is_member k ks && str_eq e.rule_id id) || has_rule id (entries_at k r))
unfolding register_under is_member
has_rule-register_under id k e [] r = refl
has_rule-register_under id k e (j ∷ ks) r =
    ground (
      arith,
      has_rule-register_under id k e ks (register_at e j r),
      has_rule-register_at id k j e r,
    )

abbrev pub applies_to : List String → String → Bool
applies_to [] k = true
applies_to (j ∷ js) k = is_member k (j ∷ js) || is_member wildcard (j ∷ js)

-- After a registration the lookup of an entity type finds the rule if the policy names that type,
-- the wildcard or no type at all, and finds every other rule as before.
pub has_rule-register :
    (id k : String) (e : PolicyEntry) (entity_types : List String) (r : Registry)
    → has_rule id (policies_for k (register e entity_types r))
      ≡ ((applies_to entity_types k && str_eq e.rule_id id) || has_rule id (policies_for k r))
unfolding register is_member
has_rule-register id k e [] r = ground (
  arith,
  has_rule-policies_for id k (register e [] r),
  has_rule-policies_for id k r,
  has_rule-register_under id k e (wildcard ∷ []) r,
  has_rule-register_under id wildcard e (wildcard ∷ []) r,
)
has_rule-register id k e (j ∷ js) r = ground (
  arith,
  has_rule-policies_for id k (register e (j ∷ js) r),
  has_rule-policies_for id k r,
  has_rule-register_under id k e (j ∷ js) r,
  has_rule-register_under id wildcard e (j ∷ js) r,
)

-- Keys of a Redis hash are distinct.
abbrev pub HasUniqueKeys : Registry → Type 0
HasUniqueKeys [] = Unit
HasUniqueKeys ((k, es) ∷ r) = (lookup k r ≡ none) × HasUniqueKeys r

lookup-unregister :
    (id k : String) (r : Registry) → lookup k r ≡ none → lookup k (unregister id r) ≡ none
unfolding lookup unregister
lookup-unregister id k [] h = refl
lookup-unregister id k ((j, es) ∷ r) h = ground (arith, lookup-unregister id k r)

has_rule-empty : (id : String) (es : List PolicyEntry) → is_empty es ≡ true → has_rule id es ≡ false
has_rule-empty id [] h = refl
has_rule-empty id (e ∷ es) h = cc

has_rule-unregister_at :
    (id k j : String) (r : Registry)
    → HasUniqueKeys r
    → has_rule id (entries_at k (unregister j r))
      ≡ (not (str_eq j id) && has_rule id (entries_at k r))
unfolding entries_at unregister lookup
has_rule-unregister_at id k j [] u = ground arith
has_rule-unregister_at id k j ((i, es) ∷ r) u = ground (
  arith,
  has_rule-unregister_at id k j r u.1,
  has_rule-without_rule id j es,
  has_rule-empty id (without_rule j es),
  lookup-unregister j k r,
  eq_iff i k,
)

-- In a registry with distinct keys, a rule that is unregistered applies to no entity type any
-- more, and every other rule applies as before.
pub has_rule-unregister :
    (id k j : String) (r : Registry)
    → HasUniqueKeys r
    → has_rule id (policies_for k (unregister j r))
      ≡ (not (str_eq j id) && has_rule id (policies_for k r))
has_rule-unregister id k j r u = ground (
  arith,
  has_rule-policies_for id k (unregister j r),
  has_rule-policies_for id k r,
  has_rule-unregister_at id k j r u,
  has_rule-unregister_at id wildcard j r u,
)
