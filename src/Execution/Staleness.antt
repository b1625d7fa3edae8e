-- ===== src/Execution/Staleness.antt =====
-- How stale a lookup through the policy cache can be.
use reg_engine_ai.Base.{
  ℕ, ◌+◌, ◌≤◌, ◌<◌, String, ◌≡◌, refl, ◌⊎◌, inl, inr, some, List, arith, lookup, insert,
  lookup-insert, lookup-erase, str_eq, eq_iff, if◌then◌else◌, Option-cases, Bool-cases,
}
use reg_engine_ai.Execution.Registry.{PolicyEntry}
use reg_engine_ai.Execution.Cache.{CacheEntry, PolicyCache, is_fresh, policies_for, invalidate}

module _ (history : ℕ → String → List PolicyEntry) where
  -- Every entry was read from the registry at the time that it carries, and no later than `now`.
  abbrev pub IsHonest : ℕ → PolicyCache → Type 0
  IsHonest now c =
      (k : String) (e : CacheEntry)
      → lookup k c.entries ≡ some e
      → (e.policies ≡ history e.cached_at k) × (e.cached_at ≤ now)

  insert-IsHonest :
      (k : String) (now : ℕ) (c : PolicyCache)
      → IsHonest now c
      → (j : String) (e : CacheEntry)
      → lookup j (insert k (record { policies = history now k; cached_at = now }) c.entries)
        ≡ some e
      → (e.policies ≡ history e.cached_at j) × (e.cached_at ≤ now)
  insert-IsHonest k now c h j e found = ground (
    arith,
    found,
    h j e,
    lookup-insert k j (record { policies = history now k; cached_at = now }) c.entries,
    eq_iff k j,
  )

  -- If every entry of the cache is what the registry held at the time that it carries, and no time
  -- is in the future, a lookup returns what the registry held at some time within the last `ttl`
  -- ticks or right now, and leaves such a cache.
  pub policies_for_staleness :
      (k : String) (now : ℕ) (c : PolicyCache)
      → IsHonest now c
      → let (found, c') = policies_for (history now) k now c in
        ((read : ℕ) × (found ≡ history read k)
          × (read ≤ now)
          × ((now < read + c.ttl) ⊎ (read ≡ now)))
        × IsHonest now c'
  unfolding policies_for
  policies_for_staleness k now c h = elim (Option-cases (lookup k c.entries)) [
    | inl missing ↦ rw missing ((now, refl, omega arith, inr refl), insert-IsHonest k now c h)
    | inr (e, found) ↦ elim (Bool-cases (is_fresh c.ttl now (some e))) [
      | inl fresh ↦
          rw (found, fresh)
            ((e.cached_at, (h k e found).0, (h k e found).1, inl (ground (arith, h k e found))), h)
      | inr stale ↦
          rw (found, stale) ((now, refl, omega arith, inr refl), insert-IsHonest k now c h)
    ]
  ]

  -- After an invalidation the next lookup of the same entity type returns what the registry holds
  -- then, and the one of another type is as it was without the invalidation.
  pub policies_for-invalidate :
      (k j : String) (now : ℕ) (c : PolicyCache)
      → (policies_for (history now) j now (invalidate k c)).0
        ≡ (if str_eq k j then history now j else (policies_for (history now) j now c).0)
  unfolding policies_for invalidate
  policies_for-invalidate k j now c = ground (arith, lookup-erase k j c.entries, eq_iff k j)
