-- ===== src/Resilience/Transitions.antt =====
-- What the operations of the queue allow, and what any sequence of them keeps.
use reg_engine_ai.Base.{
  ℕ, String, inl, inr, ◌≡◌, refl, sym, ap, subst, Option, none, some, arith, ok, ok-injective,
  bind_value, lookup, insert, lookup-insert, eq_iff, Bool-cases,
}
use reg_engine_ai.Resilience.Queue.{
  FailureCategory, Failure, DlqEntry, DeadLetterQueue, is_open, send, get_entry, move_status,
  update_payload, mark_requeued, mark_resolved, discard,
}
use reg_engine_ai.Resilience.Indexes.{
  IsIndexed, persist_new-IsIndexed, move_status-IsIndexed, get_entry-found,
}

module _ {Payload : Type 0} where
  update_payload-IsIndexed :
      (k : String) (payload : Payload) (q : DeadLetterQueue Payload) {e' : DlqEntry Payload}
      {q' : DeadLetterQueue Payload}
      → update_payload k payload q ≡ ok (e', q')
      → IsIndexed q
      → IsIndexed q'
  unfolding update_payload
  update_payload-IsIndexed k payload q run h =
      let (e, read, rest) = bind_value (get_entry k q) _ run in
      let (found, key) = get_entry-found k q h read in
      let e' : DlqEntry Payload = record e { payload = payload } in
      elim (Bool-cases (is_open e.status)) [
        | inl open_ ↦
            let edited : IsIndexed (record q { entries = insert k e' q.entries }) = (λ j.
              let there = lookup-insert k j e' q.entries in
              (
                ground (arith, (h j).0, there, key, eq_iff k j),
                ground (arith, (h j).1, there, found, eq_iff k j),
                λ c. ground (arith, (h j).2 c, there, found, eq_iff k j),
                λ s. ground (arith, (h j).3 s, there, found, eq_iff k j),
              )) in
            subst IsIndexed (ap (λ x. x.1) (ok-injective (rw open_ at rest))) edited
        | inr over ↦ absurd (ground (arith, over, rest))
      ]

  moved-IsIndexed :
      (k : String) (q : DeadLetterQueue Payload) (e e' : DlqEntry Payload)
      → get_entry k q ≡ ok e
      → e'.entry_id ≡ e.entry_id
      → e'.category ≡ e.category
      → IsIndexed q
      → IsIndexed (move_status e.status e' q)
  moved-IsIndexed k q e e' read same kind h =
      let (found, key) = get_entry-found k q h read in
      move_status-IsIndexed e e' q
        (subst (λ (j : String). lookup j q.entries ≡ some e) (sym key) found) same kind h

  mark_requeued-IsIndexed :
      (k by task_id : String) (now : ℕ) (q : DeadLetterQueue Payload) {e' : DlqEntry Payload}
      {q' : DeadLetterQueue Payload}
      → mark_requeued k by task_id now q ≡ ok (e', q')
      → IsIndexed q
      → IsIndexed q'
  unfolding mark_requeued
  mark_requeued-IsIndexed k by task_id now q run h =
      let (e, read, rest) = bind_value (get_entry k q) _ run in
      elim (Bool-cases (is_open e.status)) [
        | inl open_ ↦
            subst IsIndexed (ap (λ x. x.1) (ok-injective (rw open_ at rest)))
              (moved-IsIndexed k q e _ read refl refl h)
        | inr over ↦ absurd (ground (arith, over, rest))
      ]

  mark_resolved-IsIndexed :
      (k by : String) (notes : Option String) (now : ℕ) (q : DeadLetterQueue Payload)
      {e' : DlqEntry Payload} {q' : DeadLetterQueue Payload}
      → mark_resolved k by notes now q ≡ ok (e', q')
      → IsIndexed q
      → IsIndexed q'
  unfolding mark_resolved
  mark_resolved-IsIndexed k by notes now q run h =
      let (e, read, rest) = bind_value (get_entry k q) _ run in
      subst IsIndexed (ap (λ x. x.1) (ok-injective rest)) (moved-IsIndexed k q e _ read refl refl h)

  discard-IsIndexed :
      (k by : String) (notes : Option String) (now : ℕ) (q : DeadLetterQueue Payload)
      {e' : DlqEntry Payload} {q' : DeadLetterQueue Payload}
      → discard k by notes now q ≡ ok (e', q')
      → IsIndexed q
      → IsIndexed q'
  unfolding discard
  discard-IsIndexed k by notes now q run h =
      let (e, read, rest) = bind_value (get_entry k q) _ run in
      elim (Bool-cases (is_open e.status)) [
        | inl open_ ↦
            subst IsIndexed (ap (λ x. x.1) (ok-injective (rw open_ at rest)))
              (moved-IsIndexed k q e _ read refl refl h)
        | inr over ↦ absurd (ground (arith, over, rest))
      ]

-- One call that returns; an item that is sent gets an id that no item has.
pub data Handles {Payload : Type 0} (q : DeadLetterQueue Payload)
    : DeadLetterQueue Payload → Type 0 where
  sends :
      (k : String) (now : ℕ) (category : FailureCategory) (task : String) (payload : Payload)
      (failure : Failure) (task_id : Option String) (attempts : ℕ)
      → lookup k q.entries ≡ none
      → Handles q (send k now category task payload failure task_id attempts q).1
  edits :
      {q' : DeadLetterQueue Payload} (k : String) (payload : Payload) (e : DlqEntry Payload)
      → update_payload k payload q ≡ ok (e, q')
      → Handles q q'
  requeues :
      {q' : DeadLetterQueue Payload} (k by task_id : String) (now : ℕ) (e : DlqEntry Payload)
      → mark_requeued k by task_id now q ≡ ok (e, q')
      → Handles q q'
  resolves :
      {q' : DeadLetterQueue Payload} (k by : String) (notes : Option String) (now : ℕ)
      (e : DlqEntry Payload)
      → mark_resolved k by notes now q ≡ ok (e, q')
      → Handles q q'
  discards :
      {q' : DeadLetterQueue Payload} (k by : String) (notes : Option String) (now : ℕ)
      (e : DlqEntry Payload)
      → discard k by notes now q ≡ ok (e, q')
      → Handles q q'

-- any sequence of calls
pub data Serves {Payload : Type 0} (q : DeadLetterQueue Payload)
    : DeadLetterQueue Payload → Type 0 where
  idle : Serves q q
  serves : {p p' : DeadLetterQueue Payload} → Serves q p → Handles p p' → Serves q p'

module _ {Payload : Type 0} where
  Handles-IsIndexed : {q q' : DeadLetterQueue Payload} → Handles q q' → IsIndexed q → IsIndexed q'
  unfolding send
  Handles-IsIndexed {q} (sends k now category task payload failure task_id attempts fresh) h =
      persist_new-IsIndexed _ q fresh h
  Handles-IsIndexed {q} (edits k payload e run) h = update_payload-IsIndexed k payload q run h
  Handles-IsIndexed {q} (requeues k by task_id now e run) h =
      mark_requeued-IsIndexed k by task_id now q run h
  Handles-IsIndexed {q} (resolves k by notes now e run) h =
      mark_resolved-IsIndexed k by notes now q run h
  Handles-IsIndexed {q} (discards k by notes now e run) h = discard-IsIndexed k by notes now q run h

  -- If every item stands under its own id, in the set of all, and in the sets of exactly its
  -- category and its status, this is so after any sequence of calls, while every item that is sent
  -- gets a new id.
  pub Serves-IsIndexed : {q q' : DeadLetterQueue Payload} → Serves q q' → IsIndexed q → IsIndexed q'
  Serves-IsIndexed idle h = h
  Serves-IsIndexed (serves before step) h = Handles-IsIndexed step (Serves-IsIndexed before h)
