-- ===== src/Execution/Cache.antt =====
-- app/execution/policy_cache.py: the cache in front of the registry. `registry` is the lookup behind
-- it, a time is a number of clock ticks.
use reg_engine_ai.Base.{
  ℕ, ◌+◌, ◌-◌, String, Bool, false, Option, none, some, List, [], length, Dict, lookup, insert,
  erase, ltb, if◌then◌else◌,
}
use reg_engine_ai.Execution.Registry.{PolicyEntry}

pub record CacheEntry : Type 0 where
  pub policies : List PolicyEntry
  pub cached_at : ℕ

pub record PolicyCache : Type 0 where
  pub ttl : ℕ
  pub entries : Dict CacheEntry
  pub hits : ℕ
  pub misses : ℕ

-- The clock is monotonic, so that `now - cached_at` is no negative number.
abbrev pub is_fresh : ℕ → ℕ → Option CacheEntry → Bool
is_fresh ttl now none = false
is_fresh ttl now (some e) = ltb (now - e.cached_at) ttl

abbrev cached : Option CacheEntry → List PolicyEntry
cached none = []
cached (some e) = e.policies

unfoldable pub policies_for :
    (String → List PolicyEntry) → String → ℕ → PolicyCache → List PolicyEntry × PolicyCache
policies_for registry entity_type now c =
    let entry : Option CacheEntry = lookup entity_type c.entries in
    if is_fresh c.ttl now entry then (cached entry, record c { hits = c.hits + 1 }) else (
      registry entity_type,
      record c {
        misses = c.misses + 1;
        entries =
            insert entity_type (record { policies = registry entity_type; cached_at = now })
              c.entries;
      },
    )

unfoldable pub invalidate : String → PolicyCache → PolicyCache
invalidate entity_type c = record c { entries = erase entity_type c.entries }

unfoldable pub invalidate_all : PolicyCache → PolicyCache
invalidate_all c = record c { entries = [] }

pub record CacheStats : Type 0 where
  pub cached_entity_types : ℕ
  pub hits : ℕ
  pub misses : ℕ

unfoldable pub stats : PolicyCache → CacheStats
stats c = record { cached_entity_types = length c.entries; hits = c.hits; misses = c.misses }
