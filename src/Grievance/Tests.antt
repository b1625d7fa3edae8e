-- ===== src/Grievance/Tests.antt =====
-- The filing of grievances at concrete inputs.
use reg_engine_ai.Base.{
  ℕ, ◌≡◌, refl, String, true, false, none, some, List, [], ◌∷◌, ok, lookup, insert, sadd, srem,
  is_member,
}
use reg_engine_ai.Grievance.Queue.{
  GrievanceStatus, drafted, pending_submission, submission_failed, GrievanceRecord, GrievanceQueue,
  create_draft, confirm_for_submission,
}
use reg_engine_ai.Grievance.Filing.{acknowledged, raised, submit_one, submit_times}
use reg_engine_ai.Grievance.Submitting.{answered, attempt}
use reg_engine_ai.Grievance.Tracking.{IsTracked}
use reg_engine_ai.Grievance.Calls.{
  Calls, started, then_call, drafts, confirms, submits, Calls-IsTracked,
}
use reg_engine_ai.Grievance.Retries.{submit_times_gives_up}

abbrev grievance : GrievanceStatus → GrievanceRecord ℕ
grievance s = record {
  grievance_id = "g-1";
  request = 7;
  status = s;
  attempt_count = 0;
  max_retries = 2;
  last_error = none;
  scores_reference_number = none;
  scores_status = none;
  resolution_summary = none;
  filed_at = 3;
  response_due_at = 33;
  submitted_at = none;
  last_polled_at = none;
  resolved_at = none;
}

abbrev one_queued : GrievanceStatus → List String → GrievanceQueue ℕ
one_queued s waiting = record {
  records = ("g-1", grievance s) ∷ [];
  pending_submission_set = waiting;
  open_set = [];
}

one_queued-found :
    (s : GrievanceStatus) → lookup "g-1" (one_queued s []).records ≡ some (grievance s)
unfolding lookup
one_queued-found s = refl

submit_times_gives_up_example :
    (q' : GrievanceQueue ℕ) × (r' : GrievanceRecord ℕ) × (submit_times
        (λ x. raised true "timeout")
        "g-1"
        9
        2
        (one_queued pending_submission ("g-1" ∷ []))
      ≡ ok q')
    × (lookup "g-1" q'.records ≡ some r')
    × (r'.status ≡ submission_failed)
    × (r'.attempt_count ≡ 2)
    × (is_member "g-1" q'.pending_submission_set ≡ false)
submit_times_gives_up_example =
    submit_times_gives_up "timeout" 9 1 (grievance pending_submission)
      (one_queued pending_submission ("g-1" ∷ [])) (one_queued-found pending_submission) refl

abbrev filed : GrievanceQueue ℕ
filed = record {
  records = ("g-1", answered 9 (acknowledged "S/1") (attempt (grievance pending_submission))) ∷ [];
  pending_submission_set = [];
  open_set = "g-1" ∷ [];
}

one_drafted : Calls (one_queued drafted [])
unfolding create_draft lookup insert
one_drafted = then_call started (drafts (grievance drafted) refl refl)

one_confirmed : Calls (one_queued pending_submission ("g-1" ∷ []))
unfolding confirm_for_submission lookup insert is_member sadd
one_confirmed = then_call one_drafted (confirms "g-1" (grievance pending_submission) refl)

one_filed : Calls filed
unfolding submit_one lookup insert is_member sadd srem
one_filed = then_call one_confirmed (submits (λ x. acknowledged "S/1") "g-1" 9 refl refl)

Calls-IsTracked_example : IsTracked filed
Calls-IsTracked_example = Calls-IsTracked one_filed
