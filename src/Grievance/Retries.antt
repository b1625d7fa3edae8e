-- ===== src/Grievance/Retries.antt =====
-- A submission that keeps failing is given up, and a second submission of a record is not refused.
use reg_engine_ai.Base.{
  ℕ, zero, suc, ◌+◌, ◌≡◌, refl, String, true, false, some, arith, ok, lookup, insert, ltb,
  is_member, is_member-srem, is_member-sadd, eq_iff, lookup-insert,
}
use reg_engine_ai.Grievance.Queue.{
  pending_submission, submission_failed, GrievanceRecord, GrievanceQueue,
}
use reg_engine_ai.Grievance.Filing.{SubmitAnswer, acknowledged, raised, submit_one, submit_times}
use reg_engine_ai.Grievance.Submitting.{attempt, answered, with_answer, submit_one_exact}

module _ {Request : Type 0} where
  -- one more attempt that failed for a transient reason, with retries left
  abbrev retried : String → GrievanceRecord Request → GrievanceRecord Request
  retried error r = record r {
    status = pending_submission;
    attempt_count = r.attempt_count + 1;
    last_error = some error;
  }

  abbrev given_up : String → GrievanceRecord Request → GrievanceRecord Request
  given_up error r = record r {
    status = submission_failed;
    attempt_count = r.attempt_count + 1;
    last_error = some error;
  }

  lookup-insert_own :
      (id : String) (r : GrievanceRecord Request) (q : GrievanceQueue Request)
      (r0 : GrievanceRecord Request)
      → lookup id (insert id r (insert id r0 q.records)) ≡ some r
  lookup-insert_own id r q r0 =
      ground (arith, lookup-insert id id r (insert id r0 q.records), eq_iff id id)

  -- Of a grievance that is stored under its identifier and has suc n attempts left, suc n
  -- submissions that all fail for a transient reason return: the last leaves it SUBMISSION_FAILED
  -- with all its attempts counted, and out of the set of pending submissions.
  pub submit_times_gives_up :
      (error : String) (now n : ℕ) (r : GrievanceRecord Request) (q : GrievanceQueue Request)
      → lookup r.grievance_id q.records ≡ some r
      → r.attempt_count + suc n ≡ r.max_retries
      → (q' : GrievanceQueue Request) × (r' : GrievanceRecord Request) × (submit_times
            (λ x. raised true error)
            r.grievance_id
            now
            (suc n)
            q
          ≡ ok q')
        × (lookup r.grievance_id q'.records ≡ some r')
        × (r'.status ≡ submission_failed)
        × (r'.attempt_count ≡ r.max_retries)
        × (is_member r.grievance_id q'.pending_submission_set ≡ false)
  unfolding submit_times
  submit_times_gives_up error now zero r q found left =
      let client : Request → SubmitAnswer = (λ x. raised true error) in
      let spent : ltb (r.attempt_count + 1) r.max_retries ≡ false = ground arith in
      (
        with_answer (attempt r) (given_up error r) q,
        given_up error r,
        rw (submit_one_exact client now r q found, spent) refl,
        lookup-insert_own r.grievance_id (given_up error r) q (attempt r),
        refl,
        omega (arith, left),
        ground (
          arith,
          is_member-srem r.grievance_id r.grievance_id q.pending_submission_set,
          eq_iff r.grievance_id r.grievance_id,
        ),
      )
  submit_times_gives_up error now (suc n) r q found left =
      let client : Request → SubmitAnswer = (λ x. raised true error) in
      let again : ltb (r.attempt_count + 1) r.max_retries ≡ true = ground arith in
      let next = with_answer (attempt r) (retried error r) q in
      let ih =
        submit_times_gives_up error now n (retried error r) next
          (lookup-insert_own r.grievance_id (retried error r) q (attempt r))
          (omega (arith, left)) in
      (ih.0, ih.1, rw (submit_one_exact client now r q found, again) ih.2, ih.3, ih.4, ih.5, ih.6)

  -- An acknowledged submission of a stored grievance leaves it SUBMITTED under the new reference,
  -- with one more attempt counted, open and not pending, whatever its status was.
  pub submit_one_acknowledged :
      (client : Request → SubmitAnswer) (reference : String) (now : ℕ) (r : GrievanceRecord Request)
      (q : GrievanceQueue Request)
      → lookup r.grievance_id q.records ≡ some r
      → client r.request ≡ acknowledged reference
      → (q' : GrievanceQueue Request) × (submit_one client r.grievance_id now q ≡ ok q')
        × (lookup r.grievance_id q'.records
            ≡ some (answered now (acknowledged reference) (attempt r)))
        × (is_member r.grievance_id q'.open_set ≡ true)
        × (is_member r.grievance_id q'.pending_submission_set ≡ false)
  submit_one_acknowledged client reference now r q found answer =
      let r' = answered now (acknowledged reference) (attempt r) in
      let own = eq_iff r.grievance_id r.grievance_id in
      (
        with_answer (attempt r) r' q,
        rw (submit_one_exact client now r q found, answer) refl,
        lookup-insert_own r.grievance_id r' q (attempt r),
        ground (arith, is_member-sadd r.grievance_id r.grievance_id q.open_set, own),
        ground (arith, is_member-srem r.grievance_id r.grievance_id q.pending_submission_set, own),
      )
