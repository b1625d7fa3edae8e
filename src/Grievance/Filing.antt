-- ===== src/Grievance/Filing.antt =====
-- app/grievance_escalation/tasks.py: the submission of one grievance and the poll of its status. What
-- the client of SCORES answers is an argument; of an exception, whether `is_transient` holds of it
-- and its text. The notifications of the dashboard are left out: their failure is only logged.
use reg_engine_ai.Base.{
  ℕ, zero, suc, String, Bool, true, false, ◌&&◌, Option, none, some, Result, ok, err, ◌>>=◌, lookup,
  ltb, str_eq, if◌then◌else◌,
}
use reg_engine_ai.Grievance.Queue.{
  ScoresGrievanceStatus, scores_submitted, under_review, pending_with_respondent, scores_resolved,
  scores_rejected, unknown, GrievanceRecord, GrievanceQueue, GrievanceError, mark_submitting,
  mark_submitted, mark_retry, mark_submission_failed, update_status,
}

pub data SubmitAnswer : Type 0 where
  acknowledged : String → SubmitAnswer
  raised : Bool → String → SubmitAnswer

abbrev pub same_scores_status : ScoresGrievanceStatus → ScoresGrievanceStatus → Bool
same_scores_status scores_submitted scores_submitted = true
same_scores_status under_review under_review = true
same_scores_status pending_with_respondent pending_with_respondent = true
same_scores_status scores_resolved scores_resolved = true
same_scores_status scores_rejected scores_rejected = true
same_scores_status unknown unknown = true
same_scores_status _ _ = false

abbrev pub is_status : ScoresGrievanceStatus → Option ScoresGrievanceStatus → Bool
is_status s none = false
is_status s (some t) = same_scores_status s t

abbrev pub same_summary : Option String → Option String → Bool
same_summary none none = true
same_summary (some a) (some b) = str_eq a b
same_summary _ _ = false

abbrev pub Outcome : Type 0 → Type 0
Outcome Request = Result GrievanceError (GrievanceQueue Request)

module _ {Request : Type 0} where
  abbrev and_queue :
      Result GrievanceError (GrievanceRecord Request × GrievanceQueue Request) → Outcome Request
  and_queue (ok (r, q)) = ok q
  and_queue (err e) = err e

  -- `record` is the one that `mark_submitting` gave
  abbrev after_answer :
      String → ℕ → GrievanceRecord Request → SubmitAnswer → GrievanceQueue Request → Outcome Request
  after_answer id now r (acknowledged reference) q = and_queue (mark_submitted id reference now q)
  after_answer id now r (raised transient error) q =
      if transient && ltb r.attempt_count r.max_retries
      then and_queue (mark_retry id error q)
      else and_queue (mark_submission_failed id error q)

  abbrev submit_found :
      (Request → SubmitAnswer)
      → String
      → ℕ
      → Option (GrievanceRecord Request)
      → GrievanceQueue Request
      → Outcome Request
  submit_found client id now none q = ok q
  submit_found client id now (some r) q =
      mark_submitting id q >>= λ rq. after_answer id now rq.0 (client rq.0.request) rq.1

  -- `_submit_one`
  unfoldable pub submit_one :
      (Request → SubmitAnswer) → String → ℕ → GrievanceQueue Request → Outcome Request
  unfolding mark_submitting mark_submitted mark_retry mark_submission_failed
  submit_one client id now q = submit_found client id now (lookup id q.records) q

  -- so many submissions of one grievance, one after another, as the sweeps queue them
  unfoldable pub submit_times :
      (Request → SubmitAnswer) → String → ℕ → ℕ → GrievanceQueue Request → Outcome Request
  unfolding submit_one
  submit_times client id now zero q = ok q
  submit_times client id now (suc n) q =
      submit_one client id now q >>= λ q'. submit_times client id now n q'

  abbrev apply_poll :
      String
      → ℕ
      → GrievanceRecord Request
      → Option (ScoresGrievanceStatus × Option String)
      → GrievanceQueue Request
      → Outcome Request
  apply_poll id now r none q = ok q
  apply_poll id now r (some (s, summary)) q =
      if is_status s r.scores_status && same_summary summary r.resolution_summary
      then ok q
      else and_queue (update_status id s summary now q)

  abbrev poll_reference :
      (String → Option (ScoresGrievanceStatus × Option String))
      → String
      → ℕ
      → GrievanceRecord Request
      → Option String
      → GrievanceQueue Request
      → Outcome Request
  poll_reference client id now r none q = ok q
  poll_reference client id now r (some reference) q = apply_poll id now r (client reference) q

  abbrev poll_found :
      (String → Option (ScoresGrievanceStatus × Option String))
      → String
      → ℕ
      → Option (GrievanceRecord Request)
      → GrievanceQueue Request
      → Outcome Request
  poll_found client id now none q = ok q
  poll_found client id now (some r) q = poll_reference client id now r r.scores_reference_number q

  -- `poll_grievance_status_now`; `none` of the client is a `ScoresApiError`
  unfoldable pub poll_grievance_status_now :
      (String → Option (ScoresGrievanceStatus × Option String))
      → String
      → ℕ
      → GrievanceQueue Request
      → Outcome Request
  unfolding update_status
  poll_grievance_status_now client id now q = poll_found client id now (lookup id q.records) q
