-- ===== src/Grievance/Queue.antt =====
-- app/grievance_escalation/queue.py: the records of the grievances, and the sets of those that wait
-- for a submission or for an answer. The clock is the argument `now`; `Request` is the type of the
-- requests, which only the client of SCORES reads.
use reg_engine_ai.Base.{
  ℕ, ◌+◌, String, Bool, true, false, Option, none, some, List, Result, ok, err, ◌>>=◌, Dict, lookup,
  insert, sadd, srem, if◌then◌else◌,
}

pub data GrievanceStatus : Type 0 where
  drafted pending_submission submitting submitted resolved rejected : GrievanceStatus
  submission_failed : GrievanceStatus

pub data ScoresGrievanceStatus : Type 0 where
  scores_submitted under_review pending_with_respondent scores_resolved : ScoresGrievanceStatus
  scores_rejected unknown : ScoresGrievanceStatus

pub record GrievanceRecord (Request : Type 0) : Type 0 where
  pub grievance_id : String
  pub request : Request
  pub status : GrievanceStatus
  pub attempt_count : ℕ
  pub max_retries : ℕ
  pub last_error : Option String
  pub scores_reference_number : Option String
  pub scores_status : Option ScoresGrievanceStatus
  pub resolution_summary : Option String
  pub filed_at : ℕ
  pub response_due_at : ℕ
  pub submitted_at : Option ℕ
  pub last_polled_at : Option ℕ
  pub resolved_at : Option ℕ

pub record GrievanceQueue (Request : Type 0) : Type 0 where
  pub records : Dict (GrievanceRecord Request)
  pub pending_submission_set : List String
  pub open_set : List String

pub data GrievanceError : Type 0 where
  no_such_grievance not_drafted : GrievanceError

abbrev pub is_drafted : GrievanceStatus → Bool
is_drafted drafted = true
is_drafted _ = false

-- `is_open`
abbrev pub is_submitted : GrievanceStatus → Bool
is_submitted submitted = true
is_submitted _ = false

-- `updated.status in (RESOLVED, REJECTED)`
abbrev pub is_closed : GrievanceStatus → Bool
is_closed resolved = true
is_closed rejected = true
is_closed _ = false

abbrev pub polled_status : ScoresGrievanceStatus → GrievanceStatus → GrievanceStatus
polled_status scores_resolved s = resolved
polled_status scores_rejected s = rejected
polled_status _ s = s

abbrev pub polled_end : ScoresGrievanceStatus → ℕ → Option ℕ → Option ℕ
polled_end scores_resolved now t = some now
polled_end scores_rejected now t = some now
polled_end _ now t = t

abbrev pub QueueAnswer : Type 0 → Type 0
QueueAnswer Request = Result GrievanceError (GrievanceRecord Request × GrievanceQueue Request)

module _ {Request : Type 0} where
  -- `_save`
  abbrev pub save_record : GrievanceRecord Request → GrievanceQueue Request → GrievanceQueue Request
  save_record r q = record q { records = insert r.grievance_id r q.records }

  unfoldable pub create_draft :
      GrievanceRecord Request → GrievanceQueue Request → GrievanceQueue Request
  create_draft r q = save_record r q

  abbrev or_no_such :
      Option (GrievanceRecord Request) → Result GrievanceError (GrievanceRecord Request)
  or_no_such none = err no_such_grievance
  or_no_such (some r) = ok r

  -- `_require`
  unfoldable pub require_record :
      String → GrievanceQueue Request → Result GrievanceError (GrievanceRecord Request)
  require_record id q = or_no_such (lookup id q.records)

  unfoldable pub confirm_for_submission : String → GrievanceQueue Request → QueueAnswer Request
  unfolding require_record
  confirm_for_submission id q = require_record id q >>= λ r.
      let r' : GrievanceRecord Request = record r { status = pending_submission } in
      let q' : GrievanceQueue Request = save_record r' q in
      if is_drafted r.status
      then ok (r', record q' { pending_submission_set = sadd id q.pending_submission_set })
      else err not_drafted

  unfoldable pub mark_submitting : String → GrievanceQueue Request → QueueAnswer Request
  unfolding require_record
  mark_submitting id q = require_record id q >>= λ r.
      let r' : GrievanceRecord Request = record r {
        status = submitting;
        attempt_count = r.attempt_count + 1;
      } in
      ok (r', save_record r' q)

  unfoldable pub mark_submitted : String → String → ℕ → GrievanceQueue Request → QueueAnswer Request
  unfolding require_record
  mark_submitted id reference now q = require_record id q >>= λ r.
      let r' : GrievanceRecord Request = record r {
        status = submitted;
        scores_reference_number = some reference;
        scores_status = some scores_submitted;
        submitted_at = some now;
        last_error = none;
      } in
      ok (
        r',
        record (save_record r' q) {
          pending_submission_set = srem id q.pending_submission_set;
          open_set = sadd id q.open_set;
        },
      )

  unfoldable pub mark_retry : String → String → GrievanceQueue Request → QueueAnswer Request
  unfolding require_record
  mark_retry id error q = require_record id q >>= λ r.
      let r' : GrievanceRecord Request = record r {
        status = pending_submission;
        last_error = some error;
      } in
      ok (r', save_record r' q)

  unfoldable pub mark_submission_failed :
      String → String → GrievanceQueue Request → QueueAnswer Request
  unfolding require_record
  mark_submission_failed id error q = require_record id q >>= λ r.
      let r' : GrievanceRecord Request = record r {
        status = submission_failed;
        last_error = some error;
      } in
      ok (
        r',
        record (save_record r' q) { pending_submission_set = srem id q.pending_submission_set },
      )

  unfoldable pub update_status :
      String
      → ScoresGrievanceStatus
      → Option String
      → ℕ
      → GrievanceQueue Request
      → QueueAnswer Request
  unfolding require_record
  update_status id s summary now q = require_record id q >>= λ r.
      let r' : GrievanceRecord Request = record r {
        scores_status = some s;
        resolution_summary = summary;
        last_polled_at = some now;
        status = polled_status s r.status;
        resolved_at = polled_end s now r.resolved_at;
      } in
      let q' : GrievanceQueue Request = save_record r' q in
      ok (r', if is_closed r'.status then record q' { open_set = srem id q.open_set } else q')
