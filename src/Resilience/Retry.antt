-- ===== src/Resilience/Retry.antt =====
-- app/resilience/retry_policy.py: `is_transient`. An exception is its identity; `cause` gives its
-- `__cause__` and `is_network` says whether it is one of the transient types. The loop runs on fuel:
-- one more than the number of the exceptions that there are is enough.
use reg_engine_ai.Base.{
  ℕ, suc, zero, Bool, true, false, Option, none, some, List, [], ◌∷◌, ◌==◌, any_of, if◌then◌else◌,
}

-- `id(current) in seen`
unfoldable pub is_seen : List ℕ → ℕ → Bool
is_seen seen x = any_of (λ s. s == x) seen

module _ (cause : ℕ → Option ℕ) (is_network : ℕ → Bool) where
  unfoldable pub search_causes : ℕ → List ℕ → Option ℕ → Option Bool
  search_causes fuel seen none = some false
  search_causes zero seen (some x) = none
  search_causes (suc n) seen (some x) =
      let rest = search_causes n (x ∷ seen) (cause x) in
      if is_seen seen x then some false else if is_network x then some true else rest

  unfoldable pub is_transient : ℕ → ℕ → Option Bool
  unfolding search_causes
  is_transient fuel x = search_causes fuel [] (some x)
