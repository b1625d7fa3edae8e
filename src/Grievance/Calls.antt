-- ===== src/Grievance/Calls.antt =====
-- The sequences of calls on the queue of grievances. A submission is of a grievance that waits for
-- one, a poll is of one that does not: so do the sweeps of the tasks choose them, but a task that is
-- queued twice does not look.
use reg_engine_ai.Base.{
  ℕ, String, ◌≡◌, refl, sym, subst, ◌∙◌, ◌⊎◌, inl, inr, true, false, ◌&&◌, Option, none, some, [],
  arith, ok, lookup, ok-injective, Bool-cases, Option-cases, eq_iff, is_member,
}
use reg_engine_ai.Grievance.Queue.{
  ScoresGrievanceStatus, drafted, GrievanceRecord, GrievanceQueue, create_draft,
  confirm_for_submission, require_record, update_status,
}
use reg_engine_ai.Grievance.Filing.{
  SubmitAnswer, acknowledged, raised, is_status, same_summary, submit_one,
  poll_grievance_status_now,
}
use reg_engine_ai.Grievance.Submitting.{attempt, answered, submit_one_exact}
use reg_engine_ai.Grievance.Tracking.{
  IsTracked, is_awaited, polled, create_draft-IsTracked, confirm-IsTracked, with_answer-IsTracked,
  polled-IsTracked,
}

module _ {Request : Type 0} where
  answered_id :
      (now : ℕ) (a : SubmitAnswer) (r : GrievanceRecord Request)
      → (answered now a r).grievance_id ≡ r.grievance_id
  answered_id now (acknowledged reference) r = refl
  answered_id now (raised transient error) r = ground arith

  submit-IsTracked :
      (client : Request → SubmitAnswer) (id : String) (now : ℕ) (q : GrievanceQueue Request)
      {q' : GrievanceQueue Request}
      → is_awaited (lookup id q.records) ≡ true
      → IsTracked q
      → submit_one client id now q ≡ ok q'
      → IsTracked q'
  submit-IsTracked client id now q {q'} waiting h e = elim (Option-cases (lookup id q.records)) [
    | inl gone ↦ absurd (ground arith)
    | inr (r, found) ↦
        let own : r.grievance_id ≡ id = ground (arith, h id, found, eq_iff r.grievance_id id) in
        let here : lookup r.grievance_id q.records ≡ some r =
          subst (λ k. lookup k q.records ≡ some r) (sym own) found in
        subst IsTracked
          (ok-injective (
            sym (submit_one_exact client now r q here)
            ∙ subst (λ k. submit_one client k now q ≡ ok q') (sym own) e))
          (with_answer-IsTracked r (attempt r) (answered now (client r.request) (attempt r)) q here
            (ground (arith, found, waiting)) (answered_id now (client r.request) (attempt r)) h)
  ]

  poll_effect :
      (client : String → Option (ScoresGrievanceStatus × Option String)) (id : String) (now : ℕ)
      (q : GrievanceQueue Request) {q' : GrievanceQueue Request} (r : GrievanceRecord Request)
      → lookup id q.records ≡ some r
      → poll_grievance_status_now client id now q ≡ ok q'
      → (q ≡ q')
        ⊎ ((s : ScoresGrievanceStatus) × (summary : Option String) × (polled id r s summary now q
              ≡ q'))
  unfolding poll_grievance_status_now update_status require_record polled
  poll_effect client id now q r found e = elim (Option-cases r.scores_reference_number) [
    | inl unfiled ↦ inl (ground arith)
    | inr (reference, filed) ↦ elim (Option-cases (client reference)) [
      | inl down ↦ inl (ground arith)
      | inr ((s, summary), answer) ↦
          elim (Bool-cases
            (is_status s r.scores_status && same_summary summary r.resolution_summary)) [
              | inl same ↦ inl (ground arith)
              | inr new ↦ inr (s, summary, ground arith)
            ]
    ]
  ]

  poll-IsTracked :
      (client : String → Option (ScoresGrievanceStatus × Option String)) (id : String) (now : ℕ)
      (q : GrievanceQueue Request) {q' : GrievanceQueue Request}
      → is_awaited (lookup id q.records) ≡ false
      → IsTracked q
      → poll_grievance_status_now client id now q ≡ ok q'
      → IsTracked q'
  unfolding poll_grievance_status_now
  poll-IsTracked client id now q {q'} done h e = elim (Option-cases (lookup id q.records)) [
    | inl gone ↦ subst IsTracked (ground arith) h
    | inr (r, found) ↦ elim (poll_effect client id now q r found e) [
      | inl same ↦ subst IsTracked same h
      | inr (s, summary, change) ↦
          subst IsTracked change
            (polled-IsTracked id r s summary now q found (ground (arith, found, done)) h)
    ]
  ]

  abbrev empty_queue : GrievanceQueue Request
  empty_queue = record { records = []; pending_submission_set = []; open_set = [] }

  -- One call: a new draft, a confirmation, a submission or a poll.
  pub data Call : GrievanceQueue Request → GrievanceQueue Request → Type 0 where
    drafts :
        (r : GrievanceRecord Request) {q : GrievanceQueue Request}
        → r.status ≡ drafted
        → lookup r.grievance_id q.records ≡ none
        → Call q (create_draft r q)
    confirms :
        (id : String) (r : GrievanceRecord Request) {q q' : GrievanceQueue Request}
        → confirm_for_submission id q ≡ ok (r, q')
        → Call q q'
    submits :
        (client : Request → SubmitAnswer) (id : String) (now : ℕ) {q q' : GrievanceQueue Request}
        → is_awaited (lookup id q.records) ≡ true
        → submit_one client id now q ≡ ok q'
        → Call q q'
    polls :
        (client : String → Option (ScoresGrievanceStatus × Option String)) (id : String) (now : ℕ)
        {q q' : GrievanceQueue Request}
        → is_awaited (lookup id q.records) ≡ false
        → poll_grievance_status_now client id now q ≡ ok q'
        → Call q q'

  pub data Calls : GrievanceQueue Request → Type 0 where
    started : Calls empty_queue
    then_call : {q q' : GrievanceQueue Request} → Calls q → Call q q' → Calls q'

  Call-IsTracked : {q q' : GrievanceQueue Request} → Call q q' → IsTracked q → IsTracked q'
  Call-IsTracked (drafts r {q} new fresh) h = create_draft-IsTracked r q new fresh h
  Call-IsTracked (confirms id r {q} e) h = confirm-IsTracked id q h e
  Call-IsTracked (submits client id now {q} waiting e) h =
      submit-IsTracked client id now q waiting h e
  Call-IsTracked (polls client id now {q} done e) h = poll-IsTracked client id now q done h e

  -- However drafts, confirmations, submissions of the grievances that wait for one and polls of the
  -- others follow each other, the set of open grievances names exactly the records that are
  -- submitted, the set of pending submissions exactly those that are pending or being submitted,
  -- and every record is stored under its identifier.
  pub Calls-IsTracked : {q : GrievanceQueue Request} → Calls q → IsTracked q
  unfolding is_member lookup
  Calls-IsTracked started = λ k. (refl, refl, refl)
  Calls-IsTracked (then_call before c) = Call-IsTracked c (Calls-IsTracked before)
