-- ===== src/Resilience/Indexes.antt =====
-- The indexes of the queue against its entries.
use reg_engine_ai.Base.{
  ℕ, String, ◌≡◌, Bool, true, false, Option, none, some, arith, ok, lookup, erase, lookup-insert,
  lookup-erase, str_eq, eq_iff,
}
use reg_engine_ai.Resilience.Queue.{
  FailureCategory, DlqStatus, same_status, same_category, DlqEntry, DeadLetterQueue, persist_new,
  get_entry, move_status,
}

abbrev pub is_listed : Option ℕ → Bool
is_listed none = false
is_listed (some score) = true

module _ {Payload : Type 0} where
  abbrev pub has_status : DlqStatus → Option (DlqEntry Payload) → Bool
  has_status s none = false
  has_status s (some e) = same_status s e.status

  abbrev pub has_category : FailureCategory → Option (DlqEntry Payload) → Bool
  has_category c none = false
  has_category c (some e) = same_category c e.category

  abbrev pub is_keyed : String → Option (DlqEntry Payload) → Bool
  is_keyed k none = true
  is_keyed k (some e) = str_eq e.entry_id k

  abbrev pub is_stored : Option (DlqEntry Payload) → Bool
  is_stored none = false
  is_stored (some e) = true

  -- An item stands under its own id, in the set of all, in the set of exactly its category and in the
  -- set of exactly its status.
  abbrev pub IsIndexed : DeadLetterQueue Payload → Type 0
  IsIndexed q =
      (k : String)
      → (is_keyed k (lookup k q.entries) ≡ true)
        × (is_listed (lookup k q.all) ≡ is_stored (lookup k q.entries))
        × ((c : FailureCategory)
            → is_listed (lookup k (q.by_category c)) ≡ has_category c (lookup k q.entries))
        × ((s : DlqStatus)
            → is_listed (lookup k (q.by_status s)) ≡ has_status s (lookup k q.entries))

  pub persist_new-IsIndexed :
      (e : DlqEntry Payload) (q : DeadLetterQueue Payload)
      → lookup e.entry_id q.entries ≡ none
      → IsIndexed q
      → IsIndexed (persist_new e q)
  unfolding persist_new
  persist_new-IsIndexed e q fresh h k =
      let there = lookup-insert e.entry_id k e q.entries in
      let keyed = eq_iff e.entry_id k in
      (
        ground (arith, (h k).0, there, keyed),
        ground (arith, (h k).1, there, keyed, lookup-insert e.entry_id k e.last_failed_at q.all),
        λ c. ground (
          arith,
          (h k).2 c,
          there,
          keyed,
          fresh,
          lookup-insert e.entry_id k e.last_failed_at (q.by_category c),
        ),
        λ s. ground (
          arith,
          (h k).3 s,
          there,
          keyed,
          fresh,
          lookup-insert e.entry_id k e.last_failed_at (q.by_status s),
        ),
      )

  -- An entry that is replaced under its id, with its category kept, moves from its old status to the
  -- new one.
  pub move_status-IsIndexed :
      (e e' : DlqEntry Payload) (q : DeadLetterQueue Payload)
      → lookup e.entry_id q.entries ≡ some e
      → e'.entry_id ≡ e.entry_id
      → e'.category ≡ e.category
      → IsIndexed q
      → IsIndexed (move_status e.status e' q)
  unfolding move_status
  move_status-IsIndexed e e' q found same kind h k =
      let there = lookup-insert e'.entry_id k e' q.entries in
      let keyed = eq_iff e'.entry_id k in
      (
        ground (arith, (h k).0, there, keyed),
        ground (arith, (h k).1, there, keyed, found, same),
        λ c. ground (arith, (h k).2 c, there, keyed, found, same, kind),
        λ s. ground (
          arith,
          (h k).3 s,
          there,
          keyed,
          found,
          same,
          lookup-insert e'.entry_id k e'.last_failed_at (q.by_status s),
          lookup-insert e'.entry_id k e'.last_failed_at (erase e'.entry_id (q.by_status s)),
          lookup-erase e'.entry_id k (q.by_status s),
        ),
      )

  -- what a read of an entry gives
  pub get_entry-found :
      (k : String) (q : DeadLetterQueue Payload) {e : DlqEntry Payload}
      → IsIndexed q
      → get_entry k q ≡ ok e
      → (lookup k q.entries ≡ some e) × (e.entry_id ≡ k)
  unfolding get_entry
  get_entry-found k q {e} h read =
      let found : lookup k q.entries ≡ some e = ground (arith, read) in
      (found, ground (arith, (h k).0, found, eq_iff e.entry_id k))
