-- ===== src/Execution/Queueing.antt =====
-- What holds of the review queue between two calls.
use reg_engine_ai.Base.{
  ℕ, String, ◌≡◌, Bool, true, false, ◌&&◌, ◌||◌, str_eq, if◌then◌else◌, Option, none, some, List,
  arith, ok, err, insert, srem, is_member, lookup-insert, is_member-sadd, is_member-srem, eq_iff,
}
use reg_engine_ai.Execution.Models.{
  TransactionPayload, PolicyOutcome, Reason, HitlStatus, HitlCase, pending,
}
use reg_engine_ai.Execution.HitlQueue.{
  HitlQueue, is_pending, enqueue, get, resolve, already_resolved,
}

module _ {Facts : Type 0} where
  abbrev pub is_waiting : Option (HitlCase Facts) → Bool
  is_waiting none = false
  is_waiting (some c) = is_pending c.status

  -- The pending set names exactly the cases that are pending.
  abbrev pub IsConsistent : HitlQueue Facts → Type 0
  IsConsistent q = (k : String) → is_member k q.pending_set ≡ is_waiting (get k q)

  -- The case that a call makes, still open.
  abbrev pub pending_case :
      String → ℕ → TransactionPayload Facts → List Reason → List PolicyOutcome → HitlCase Facts
  pending_case case_id now t reason matched = record {
    case_id = case_id;
    transaction = t;
    reason = reason;
    matched_policies = matched;
    status = pending;
    created_at = now;
    resolved_at = none;
    resolved_by = none;
    resolution_notes = none;
  }

  -- If `b`, the case is in the queue and its id among the pending ones; all else is as it was.
  abbrev pub Adds : Bool → HitlCase Facts → HitlQueue Facts → HitlQueue Facts → Type 0
  Adds b c q q' =
      (k : String)
      → (get k q' ≡ (if b && str_eq c.case_id k then some c else get k q))
        × (is_member k q'.pending_set ≡ ((b && str_eq c.case_id k) || is_member k q.pending_set))

  pub enqueue-Adds :
      (case_id : String) (now : ℕ) (t : TransactionPayload Facts) (reason : List Reason)
      (matched : List PolicyOutcome) (q : HitlQueue Facts)
      → Adds true
          (pending_case case_id now t reason matched)
          q
          (enqueue case_id now t reason matched q).1
  unfolding enqueue get
  enqueue-Adds case_id now t reason matched q k = (
    lookup-insert case_id k (pending_case case_id now t reason matched) q.cases,
    is_member-sadd case_id k q.pending_set,
  )

  -- If the pending set names exactly the pending cases, it does so with a new case in the queue.
  pub enqueue-IsConsistent :
      (case_id : String) (now : ℕ) (t : TransactionPayload Facts) (reason : List Reason)
      (matched : List PolicyOutcome) (q : HitlQueue Facts)
      → IsConsistent q
      → IsConsistent (enqueue case_id now t reason matched q).1
  unfolding enqueue get
  enqueue-IsConsistent case_id now t reason matched q h k = ground (
    arith,
    h k,
    is_member-sadd case_id k q.pending_set,
    lookup-insert case_id k (enqueue case_id now t reason matched q).0 q.cases,
  )

  resolve_effect :
      (case_id : String) (status : HitlStatus) (by : String) (notes : Option String) (now : ℕ)
      (q : HitlQueue Facts) {c : HitlCase Facts} {q' : HitlQueue Facts}
      → resolve case_id status by notes now q ≡ ok (c, q')
      → (q'.cases ≡ insert case_id c q.cases)
        × (q'.pending_set ≡ srem case_id q.pending_set)
        × (c.status ≡ status)
  unfolding resolve
  resolve_effect case_id status by notes now q e = ground arith

  resolve-IsConsistent :
      (case_id : String) (status : HitlStatus) (by : String) (notes : Option String) (now : ℕ)
      (q : HitlQueue Facts) {c : HitlCase Facts} {q' : HitlQueue Facts}
      → is_pending status ≡ false
      → IsConsistent q
      → resolve case_id status by notes now q ≡ ok (c, q')
      → IsConsistent q'
  unfolding get
  resolve-IsConsistent case_id status by notes now q {c} {q'} final h e k = ground (
    arith,
    resolve_effect case_id status by notes now q e,
    h k,
    is_member-srem case_id k q.pending_set,
    lookup-insert case_id k c q.cases,
  )

  -- A resolution to anything but pending keeps the pending set in step with the cases, and its
  -- case can be resolved by nobody else: a second call raises, whatever it asks for.
  pub resolve_once :
      (case_id : String) (status : HitlStatus) (by : String) (notes : Option String) (now : ℕ)
      (q : HitlQueue Facts) {c : HitlCase Facts} {q' : HitlQueue Facts} (status' : HitlStatus)
      (by' : String) (notes' : Option String) (now' : ℕ)
      → is_pending status ≡ false
      → IsConsistent q
      → resolve case_id status by notes now q ≡ ok (c, q')
      → IsConsistent q'
        × (c.status ≡ status)
        × (resolve case_id status' by' notes' now' q' ≡ err already_resolved)
  unfolding resolve
  resolve_once case_id status by notes now q {c} {q'} status' by' notes' now' final h e =
      let after = resolve_effect case_id status by notes now q e in
      (
        resolve-IsConsistent case_id status by notes now q final h e,
        after.2,
        ground (arith, after, lookup-insert case_id case_id c q.cases, eq_iff case_id case_id),
      )
