-- ===== src/Execution/HitlQueue.antt =====
-- app/execution/hitl_queue.py: the Redis queue of the transactions that wait for a human. `uuid4` is
-- the argument `case_id`, the clock the argument `now`.
use reg_engine_ai.Base.{
  ℕ, String, Bool, true, false, Option, none, some, List, [], ◌∷◌, Result, ok, err, Dict, lookup,
  insert, sadd, srem, leb, if◌then◌else◌,
}
use reg_engine_ai.Execution.Models.{
  TransactionPayload, PolicyOutcome, Reason, HitlStatus, pending, HitlCase,
}

pub record HitlQueue (Facts : Type 0) : Type 0 where
  pub cases : Dict (HitlCase Facts)
  pub pending_set : List String

pub data QueueError : Type 0 where
  no_such_case already_resolved : QueueError

abbrev pub is_pending : HitlStatus → Bool
is_pending pending = true
is_pending _ = false

module _ {Facts : Type 0} where
  unfoldable pub enqueue :
      String
      → ℕ
      → TransactionPayload Facts
      → List Reason
      → List PolicyOutcome
      → HitlQueue Facts
      → HitlCase Facts × HitlQueue Facts
  enqueue case_id now transaction reason matched q =
      let c : HitlCase Facts = record {
        case_id = case_id;
        transaction = transaction;
        reason = reason;
        matched_policies = matched;
        status = pending;
        created_at = now;
        resolved_at = none;
        resolved_by = none;
        resolution_notes = none;
      } in
      (c, record { cases = insert case_id c q.cases; pending_set = sadd case_id q.pending_set })

  unfoldable pub get : String → HitlQueue Facts → Option (HitlCase Facts)
  get case_id q = lookup case_id q.cases

  abbrev add_found : Option (HitlCase Facts) → List (HitlCase Facts) → List (HitlCase Facts)
  add_found none rest = rest
  add_found (some c) rest = c ∷ rest

  unfoldable pub fetch_cases : HitlQueue Facts → List String → List (HitlCase Facts)
  unfolding get
  fetch_cases q [] = []
  fetch_cases q (k ∷ ks) = add_found (get k q) (fetch_cases q ks)

  unfoldable pub insert_case : HitlCase Facts → List (HitlCase Facts) → List (HitlCase Facts)
  insert_case c [] = c ∷ []
  insert_case c (x ∷ xs) =
      if leb c.created_at x.created_at then c ∷ x ∷ xs else x ∷ insert_case c xs

  -- `sorted(cases, key=lambda c: c.created_at)`
  unfoldable pub by_age : List (HitlCase Facts) → List (HitlCase Facts)
  unfolding insert_case
  by_age [] = []
  by_age (c ∷ cs) = insert_case c (by_age cs)

  unfoldable pub list_pending : HitlQueue Facts → List (HitlCase Facts)
  unfolding fetch_cases by_age
  list_pending q = by_age (fetch_cases q q.pending_set)

  abbrev resolve_found :
      String
      → HitlStatus
      → String
      → Option String
      → ℕ
      → HitlQueue Facts
      → Option (HitlCase Facts)
      → Result QueueError (HitlCase Facts × HitlQueue Facts)
  resolve_found case_id status by notes now q none = err no_such_case
  resolve_found case_id status by notes now q (some c) =
      let c' : HitlCase Facts = record c {
        status = status;
        resolved_by = some by;
        resolution_notes = notes;
        resolved_at = some now;
      } in
      if is_pending c.status
      then ok (
        c',
        record { cases = insert case_id c' q.cases; pending_set = srem case_id q.pending_set },
      )
      else err already_resolved

  unfoldable pub resolve :
      String
      → HitlStatus
      → String
      → Option String
      → ℕ
      → HitlQueue Facts
      → Result QueueError (HitlCase Facts × HitlQueue Facts)
  unfolding get
  resolve case_id status by notes now q =
      resolve_found case_id status by notes now q (get case_id q)
