-- ===== src/Grievance/Submitting.antt =====
-- What one submission does to the queue, on every answer of SCORES.
use reg_engine_ai.Base.{
  ℕ, ◌+◌, ◌&&◌, ltb, Bool-cases, inl, inr, String, ◌≡◌, refl, Bool, true, false, none, some, arith,
  ok, lookup, insert, sadd, srem, lookup-insert, eq_iff, if◌then◌else◌,
}
use reg_engine_ai.Grievance.Queue.{
  GrievanceStatus, pending_submission, submitting, submitted, submission_failed, scores_submitted,
  GrievanceRecord, GrievanceQueue, is_submitted, require_record, mark_submitting, mark_submitted,
  mark_retry, mark_submission_failed,
}
use reg_engine_ai.Grievance.Filing.{SubmitAnswer, acknowledged, raised, submit_one}

abbrev pub awaits : GrievanceStatus → Bool
awaits pending_submission = true
awaits submitting = true
awaits _ = false

module _ {Request : Type 0} where
  pub lookup-insert_same :
      (r : GrievanceRecord Request) (q : GrievanceQueue Request)
      → lookup r.grievance_id (insert r.grievance_id r q.records) ≡ some r
  lookup-insert_same r q = ground (
    arith,
    lookup-insert r.grievance_id r.grievance_id r q.records,
    eq_iff r.grievance_id r.grievance_id,
  )

  abbrev pub attempt : GrievanceRecord Request → GrievanceRecord Request
  attempt r = record r { status = submitting; attempt_count = r.attempt_count + 1 }

  abbrev counted : GrievanceRecord Request → GrievanceQueue Request → GrievanceQueue Request
  counted r q = record q { records = insert r.grievance_id (attempt r) q.records }

  -- what an answer of SCORES makes of a record, once the attempt is counted
  abbrev pub answered : ℕ → SubmitAnswer → GrievanceRecord Request → GrievanceRecord Request
  answered now (acknowledged reference) r = record r {
    status = submitted;
    scores_reference_number = some reference;
    scores_status = some scores_submitted;
    submitted_at = some now;
    last_error = none;
  }
  answered now (raised transient error) r =
      if transient && ltb r.attempt_count r.max_retries
      then record r { status = pending_submission; last_error = some error }
      else record r { status = submission_failed; last_error = some error }

  -- the queue with the record that an answer left
  abbrev pub with_answer :
      GrievanceRecord Request
      → GrievanceRecord Request
      → GrievanceQueue Request
      → GrievanceQueue Request
  with_answer r0 r q = record {
    records = insert r0.grievance_id r (insert r0.grievance_id r0 q.records);
    pending_submission_set =
        if awaits r.status
        then q.pending_submission_set
        else srem r0.grievance_id q.pending_submission_set;
    open_set = if is_submitted r.status then sadd r0.grievance_id q.open_set else q.open_set;
  }

  mark_submitting_found :
      (r : GrievanceRecord Request) (q : GrievanceQueue Request)
      → lookup r.grievance_id q.records ≡ some r
      → mark_submitting r.grievance_id q
        ≡ ok (attempt r, record q { records = insert r.grievance_id (attempt r) q.records })
  unfolding mark_submitting require_record
  mark_submitting_found r q e = rw e refl

  mark_submitted_found :
      (reference : String) (now : ℕ) (r : GrievanceRecord Request) (q : GrievanceQueue Request)
      → lookup r.grievance_id q.records ≡ some r
      → mark_submitted r.grievance_id reference now q
        ≡ ok (
          answered now (acknowledged reference) r,
          record {
            records = insert r.grievance_id (answered now (acknowledged reference) r) q.records;
            pending_submission_set = srem r.grievance_id q.pending_submission_set;
            open_set = sadd r.grievance_id q.open_set;
          },
        )
  unfolding mark_submitted require_record
  mark_submitted_found reference now r q e = rw e refl

  mark_retry_found :
      (error : String) (r : GrievanceRecord Request) (q : GrievanceQueue Request)
      → lookup r.grievance_id q.records ≡ some r
      → mark_retry r.grievance_id error q
        ≡ ok (
          record r { status = pending_submission; last_error = some error },
          record q {
            records =
                insert r.grievance_id
                  (record r { status = pending_submission; last_error = some error })
                  q.records;
          },
        )
  unfolding mark_retry require_record
  mark_retry_found error r q e = rw e refl

  mark_submission_failed_found :
      (error : String) (r : GrievanceRecord Request) (q : GrievanceQueue Request)
      → lookup r.grievance_id q.records ≡ some r
      → mark_submission_failed r.grievance_id error q
        ≡ ok (
          record r { status = submission_failed; last_error = some error },
          record q {
            records =
                insert r.grievance_id
                  (record r { status = submission_failed; last_error = some error })
                  q.records;
            pending_submission_set = srem r.grievance_id q.pending_submission_set;
          },
        )
  unfolding mark_submission_failed require_record
  mark_submission_failed_found error r q e = rw e refl

  submit_answered :
      (client : Request → SubmitAnswer) (now : ℕ) (r : GrievanceRecord Request)
      (q : GrievanceQueue Request) (a : SubmitAnswer)
      → lookup r.grievance_id q.records ≡ some r
      → client r.request ≡ a
      → submit_one client r.grievance_id now q
        ≡ ok (with_answer (attempt r) (answered now a (attempt r)) q)
  unfolding submit_one
  submit_answered client now r q (acknowledged reference) e c =
      rw
        (
          e,
          mark_submitting_found r q e,
          c,
          mark_submitted_found reference now (attempt r) (counted r q)
              (lookup-insert_same (attempt r) q),
        )
        refl
  submit_answered client now r q (raised transient error) e c =
      let here = lookup-insert_same (attempt r) q in
      elim (Bool-cases (transient && ltb (r.attempt_count + 1) r.max_retries)) [
        | inl again ↦
            rw
              (
                e,
                mark_submitting_found r q e,
                c,
                again,
                mark_retry_found error (attempt r) (counted r q) here,
              )
              refl
        | inr spent ↦
            rw
              (
                e,
                mark_submitting_found r q e,
                c,
                spent,
                mark_submission_failed_found error (attempt r) (counted r q) here,
              )
              refl
      ]

  -- A submission counts an attempt and settles the record by the answer, whatever its status was.
  pub submit_one_exact :
      (client : Request → SubmitAnswer) (now : ℕ) (r : GrievanceRecord Request)
      (q : GrievanceQueue Request)
      → lookup r.grievance_id q.records ≡ some r
      → submit_one client r.grievance_id now q
        ≡ ok (with_answer (attempt r) (answered now (client r.request) (attempt r)) q)
  submit_one_exact client now r q e = submit_answered client now r q (client r.request) e refl
