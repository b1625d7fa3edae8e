-- ===== src/Grievance/Tracking.antt =====
-- The two sets name exactly the grievances that wait for a submission, and those that SCORES has.
use reg_engine_ai.Base.{
  ℕ, String, ◌≡◌, refl, ◌⊎◌, ap, subst, Bool, true, false, Option, none, some, arith, ok, lookup,
  insert, sadd, srem, is_member, lookup-insert, is_member-sadd, is_member-srem, eq_iff, str_eq,
  if◌then◌else◌, Bool-cases, Option-cases, inl, inr,
}
use reg_engine_ai.Grievance.Queue.{
  GrievanceStatus, ScoresGrievanceStatus, drafted, pending_submission, GrievanceRecord,
  GrievanceQueue, is_drafted, is_submitted, polled_status, polled_end, is_closed, scores_resolved,
  scores_rejected, scores_submitted, under_review, pending_with_respondent, unknown, create_draft,
  confirm_for_submission, require_record,
}
use reg_engine_ai.Grievance.Submitting.{awaits, with_answer}

awaits_not_submitted : (s : GrievanceStatus) → awaits s ≡ true → is_submitted s ≡ false
awaits_not_submitted s e = ground arith

drafted_not_tracked :
    (s : GrievanceStatus) → is_drafted s ≡ true → (is_submitted s ≡ false) × (awaits s ≡ false)
drafted_not_tracked s e = ground arith

closed_not_tracked :
    (s : GrievanceStatus) → is_closed s ≡ true → (is_submitted s ≡ false) × (awaits s ≡ false)
closed_not_tracked s e = ground arith

polled_status-cases :
    (s : ScoresGrievanceStatus) (old : GrievanceStatus)
    → (is_closed (polled_status s old) ≡ true) ⊎ (polled_status s old ≡ old)
polled_status-cases scores_resolved old = inl refl
polled_status-cases scores_rejected old = inl refl
polled_status-cases scores_submitted old = inr refl
polled_status-cases under_review old = inr refl
polled_status-cases pending_with_respondent old = inr refl
polled_status-cases unknown old = inr refl

module _ {Request : Type 0} where
  abbrev pub is_awaited : Option (GrievanceRecord Request) → Bool
  is_awaited none = false
  is_awaited (some r) = awaits r.status

  abbrev pub is_with_scores : Option (GrievanceRecord Request) → Bool
  is_with_scores none = false
  is_with_scores (some r) = is_submitted r.status

  abbrev is_keyed : String → Option (GrievanceRecord Request) → Bool
  is_keyed k none = true
  is_keyed k (some r) = str_eq r.grievance_id k

  -- The sets name the records by their status, and a record is stored under its identifier.
  abbrev pub IsTracked : GrievanceQueue Request → Type 0
  IsTracked q =
      (k : String)
      → (is_member k q.open_set ≡ is_with_scores (lookup k q.records))
        × (is_member k q.pending_submission_set ≡ is_awaited (lookup k q.records))
        × (is_keyed k (lookup k q.records) ≡ true)

  pub create_draft-IsTracked :
      (r : GrievanceRecord Request) (q : GrievanceQueue Request)
      → r.status ≡ drafted
      → lookup r.grievance_id q.records ≡ none
      → IsTracked q
      → IsTracked (create_draft r q)
  unfolding create_draft
  create_draft-IsTracked r q new fresh h k = ground (
    arith,
    new,
    fresh,
    h k,
    lookup-insert r.grievance_id k r q.records,
    eq_iff r.grievance_id k,
    ap is_submitted new,
    ap awaits new,
  )

  pub with_answer-IsTracked :
      (old r0 r : GrievanceRecord Request) (q : GrievanceQueue Request)
      → lookup r0.grievance_id q.records ≡ some old
      → awaits old.status ≡ true
      → r.grievance_id ≡ r0.grievance_id
      → IsTracked q
      → IsTracked (with_answer r0 r q)
  with_answer-IsTracked old r0 r q e waiting same h k = ground (
    arith,
    h k,
    e,
    waiting,
    same,
    awaits_not_submitted old.status waiting,
    awaits_not_submitted r.status,
    lookup-insert r0.grievance_id k r (insert r0.grievance_id r0 q.records),
    lookup-insert r0.grievance_id k r0 q.records,
    is_member-sadd r0.grievance_id k q.open_set,
    is_member-srem r0.grievance_id k q.pending_submission_set,
    eq_iff r0.grievance_id k,
  )

  confirmed : String → GrievanceRecord Request → GrievanceQueue Request → GrievanceQueue Request
  confirmed id r q = record {
    records = insert r.grievance_id (record r { status = pending_submission }) q.records;
    pending_submission_set = sadd id q.pending_submission_set;
    open_set = q.open_set;
  }

  confirmed-IsTracked :
      (id : String) (r : GrievanceRecord Request) (q : GrievanceQueue Request)
      → lookup id q.records ≡ some r
      → is_drafted r.status ≡ true
      → IsTracked q
      → IsTracked (confirmed id r q)
  unfolding confirmed
  confirmed-IsTracked id r q e draft h k = ground (
    arith,
    h k,
    h id,
    e,
    draft,
    drafted_not_tracked r.status draft,
    lookup-insert r.grievance_id k (record r { status = pending_submission }) q.records,
    is_member-sadd id k q.pending_submission_set,
    eq_iff r.grievance_id k,
    eq_iff r.grievance_id id,
    eq_iff id k,
  )

  pub confirm-IsTracked :
      (id : String) {r : GrievanceRecord Request} (q : GrievanceQueue Request)
      {q' : GrievanceQueue Request}
      → IsTracked q
      → confirm_for_submission id q ≡ ok (r, q')
      → IsTracked q'
  unfolding confirm_for_submission require_record confirmed
  confirm-IsTracked id {r} q {q'} h e = elim (Option-cases (lookup id q.records)) [
    | inl gone ↦ absurd (ground arith)
    | inr (old, found) ↦ elim (Bool-cases (is_drafted old.status)) [
      | inl draft ↦ subst IsTracked (ground arith) (confirmed-IsTracked id old q found draft h)
      | inr other ↦ absurd (ground arith)
    ]
  ]

  -- the queue with what a poll says
  unfoldable pub polled :
      String
      → GrievanceRecord Request
      → ScoresGrievanceStatus
      → Option String
      → ℕ
      → GrievanceQueue Request
      → GrievanceQueue Request
  polled id r s summary now q =
      let r' : GrievanceRecord Request = record r {
        scores_status = some s;
        resolution_summary = summary;
        last_polled_at = some now;
        status = polled_status s r.status;
        resolved_at = polled_end s now r.resolved_at;
      } in
      record {
        records = insert r.grievance_id r' q.records;
        pending_submission_set = q.pending_submission_set;
        open_set = if is_closed r'.status then srem id q.open_set else q.open_set;
      }

  pub polled-IsTracked :
      (id : String) (r : GrievanceRecord Request) (s : ScoresGrievanceStatus)
      (summary : Option String) (now : ℕ) (q : GrievanceQueue Request)
      → lookup id q.records ≡ some r
      → awaits r.status ≡ false
      → IsTracked q
      → IsTracked (polled id r s summary now q)
  unfolding polled
  polled-IsTracked id r s summary now q e done h k = ground (
    arith,
    h k,
    h id,
    e,
    done,
    polled_status-cases s r.status,
    closed_not_tracked r.status,
    closed_not_tracked (polled_status s r.status),
    lookup-insert r.grievance_id k
        (record r {
          scores_status = some s;
          resolution_summary = summary;
          last_polled_at = some now;
          status = polled_status s r.status;
          resolved_at = polled_end s now r.resolved_at;
        })
        q.records,
    is_member-srem id k q.open_set,
    eq_iff r.grievance_id k,
    eq_iff r.grievance_id id,
    eq_iff id k,
  )
