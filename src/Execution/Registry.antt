-- ===== src/Execution/Registry.antt =====
-- app/execution/policy_registry.py: the Redis hash from an entity type to its policies. Each entry
-- is kept as the record that its JSON text encodes.
use reg_engine_ai.Base.{
  ℕ, String, not, Option, none, some, List, [], ◌∷◌, ◌++◌, Dict, lookup, insert, is_member, str_eq,
  keep_if, is_empty, if◌then◌else◌,
}

pub record PolicyEntry : Type 0 where
  pub rule_id : String
  pub package_name : String
  pub rule_version : Option ℕ
  pub policy_sha256 : Option String
  pub canonical_facts_digest : Option String

abbrev pub Registry : Type 0
Registry = Dict (List PolicyEntry)

abbrev pub wildcard : String
wildcard = "*"

abbrev entries_or_nil : Option (List PolicyEntry) → List PolicyEntry
entries_or_nil none = []
entries_or_nil (some es) = es

unfoldable pub entries_at : String → Registry → List PolicyEntry
entries_at k r = entries_or_nil (lookup k r)

unfoldable pub without_rule : String → List PolicyEntry → List PolicyEntry
without_rule rule_id = keep_if (λ e. not (str_eq e.rule_id rule_id))

unfoldable pub register_at : PolicyEntry → String → Registry → Registry
register_at e k r = insert k (without_rule e.rule_id (entries_at k r) ++ e ∷ []) r

unfoldable pub register_under : PolicyEntry → List String → Registry → Registry
register_under e [] r = r
register_under e (k ∷ ks) r = register_under e ks (register_at e k r)

abbrev or_wildcard : List String → List String
or_wildcard [] = wildcard ∷ []
or_wildcard (k ∷ ks) = k ∷ ks

unfoldable pub register : PolicyEntry → List String → Registry → Registry
register e entity_types r = register_under e (or_wildcard entity_types) r

-- An entity type that loses its last policy loses its key.
unfoldable pub unregister : String → Registry → Registry
unregister rule_id [] = []
unregister rule_id ((k, es) ∷ r) =
    let rest = unregister rule_id r in
    let kept : List PolicyEntry = without_rule rule_id es in
    if is_empty kept then rest else (k, kept) ∷ rest

-- The first entry of each rule id.
unfoldable pub dedupe : List String → List PolicyEntry → List PolicyEntry
dedupe seen [] = []
dedupe seen (e ∷ es) =
    let kept : List PolicyEntry = e ∷ dedupe (e.rule_id ∷ seen) es in
    let skipped = dedupe seen es in if is_member e.rule_id seen then skipped else kept

unfoldable pub policies_for : String → Registry → List PolicyEntry
policies_for entity_type r = dedupe [] (entries_at entity_type r ++ entries_at wildcard r)
