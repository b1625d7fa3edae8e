-- ===== src/Resilience/Queue.antt =====
-- app/resilience/dead_letter_queue.py and models.py: the failed items and their Redis indexes. A
-- sorted set is a dictionary from a member to its score; the order of members with one score is left
-- open. `Payload` is the type of the payloads; the texts of a failure are one argument.
use reg_engine_ai.Base.{
  ℕ, String, Bool, true, false, Option, none, some, Result, ok, err, ◌>>=◌, Dict, lookup, insert,
  erase, if◌then◌else◌,
}

pub data FailureCategory : Type 0 where
  pdf_parsing llm_extraction malformed_ast vector_ingestion rss_polling : FailureCategory
  policy_self_heal_exhausted other : FailureCategory

pub data DlqStatus : Type 0 where
  pending requeued resolved discarded : DlqStatus

unfoldable pub same_status : DlqStatus → DlqStatus → Bool
same_status pending pending = true
same_status requeued requeued = true
same_status resolved resolved = true
same_status discarded discarded = true
same_status _ _ = false

unfoldable pub same_category : FailureCategory → FailureCategory → Bool
same_category pdf_parsing pdf_parsing = true
same_category llm_extraction llm_extraction = true
same_category malformed_ast malformed_ast = true
same_category vector_ingestion vector_ingestion = true
same_category rss_polling rss_polling = true
same_category policy_self_heal_exhausted policy_self_heal_exhausted = true
same_category other other = true
same_category _ _ = false

-- the class, the message and the traceback of an exception
pub record Failure : Type 0 where
  pub error_type : String
  pub error_message : String
  pub traceback : Option String

pub record DlqEntry (Payload : Type 0) : Type 0 where
  pub entry_id : String
  pub category : FailureCategory
  pub task_name : String
  pub original_task_id : Option String
  pub payload : Payload
  pub failure : Failure
  pub attempt_count : ℕ
  pub first_failed_at : ℕ
  pub last_failed_at : ℕ
  pub status : DlqStatus
  pub requeued_at : Option ℕ
  pub requeued_by : Option String
  pub requeued_task_id : Option String
  pub resolution_notes : Option String
  pub resolved_by : Option String
  pub resolved_at : Option ℕ

pub record DeadLetterQueue (Payload : Type 0) : Type 0 where
  pub entries : Dict (DlqEntry Payload)
  pub all : Dict ℕ
  pub by_category : FailureCategory → Dict ℕ
  pub by_status : DlqStatus → Dict ℕ

pub data DlqError : Type 0 where
  not_found invalid_transition : DlqError

-- `status not in (RESOLVED, DISCARDED)`, which is `status in (PENDING, REQUEUED)`
abbrev pub is_open : DlqStatus → Bool
is_open pending = true
is_open requeued = true
is_open _ = false

module _ {Payload : Type 0} where
  -- `_persist_new`
  unfoldable pub persist_new : DlqEntry Payload → DeadLetterQueue Payload → DeadLetterQueue Payload
  persist_new e q = record {
    entries = insert e.entry_id e q.entries;
    all = insert e.entry_id e.last_failed_at q.all;
    by_category = λ c.
        if same_category c e.category
        then insert e.entry_id e.last_failed_at (q.by_category c)
        else q.by_category c;
    by_status = λ s.
        if same_status s e.status
        then insert e.entry_id e.last_failed_at (q.by_status s)
        else q.by_status s;
  }

  -- `uuid4` gives `entry_id`, the clock gives `now`.
  unfoldable pub send :
      String
      → ℕ
      → FailureCategory
      → String
      → Payload
      → Failure
      → Option String
      → ℕ
      → DeadLetterQueue Payload
      → DlqEntry Payload × DeadLetterQueue Payload
  unfolding persist_new
  send entry_id now category task_name payload failure original_task_id attempt_count q =
      let e : DlqEntry Payload = record {
        entry_id = entry_id;
        category = category;
        task_name = task_name;
        original_task_id = original_task_id;
        payload = payload;
        failure = failure;
        attempt_count = attempt_count;
        first_failed_at = now;
        last_failed_at = now;
        status = pending;
        requeued_at = none;
        requeued_by = none;
        requeued_task_id = none;
        resolution_notes = none;
        resolved_by = none;
        resolved_at = none;
      } in
      (e, persist_new e q)

  abbrev or_not_found : Option (DlqEntry Payload) → Result DlqError (DlqEntry Payload)
  or_not_found none = err not_found
  or_not_found (some e) = ok e

  unfoldable pub get_entry : String → DeadLetterQueue Payload → Result DlqError (DlqEntry Payload)
  get_entry entry_id q = or_not_found (lookup entry_id q.entries)

  -- `_move_status`
  unfoldable pub move_status :
      DlqStatus → DlqEntry Payload → DeadLetterQueue Payload → DeadLetterQueue Payload
  move_status old e q =
      let removed : DlqStatus → Dict ℕ =
        (λ s. if same_status s old then erase e.entry_id (q.by_status s) else q.by_status s) in
      record q {
        entries = insert e.entry_id e q.entries;
        by_status = λ s.
            if same_status s e.status
            then insert e.entry_id e.last_failed_at (removed s)
            else removed s;
      }

  unfoldable pub update_payload :
      String
      → Payload
      → DeadLetterQueue Payload
      → Result DlqError (DlqEntry Payload × DeadLetterQueue Payload)
  unfolding get_entry
  update_payload entry_id new_payload q = get_entry entry_id q >>= λ e.
      let e' : DlqEntry Payload = record e { payload = new_payload } in
      if is_open e.status
      then ok (e', record q { entries = insert entry_id e' q.entries })
      else err invalid_transition

  unfoldable pub mark_requeued :
      String
      → String
      → String
      → ℕ
      → DeadLetterQueue Payload
      → Result DlqError (DlqEntry Payload × DeadLetterQueue Payload)
  unfolding get_entry move_status
  mark_requeued entry_id by task_id now q = get_entry entry_id q >>= λ e.
      let e' : DlqEntry Payload = record e {
        status = requeued;
        requeued_at = some now;
        requeued_by = some by;
        requeued_task_id = some task_id;
      } in
      if is_open e.status then ok (e', move_status e.status e' q) else err invalid_transition

  abbrev pub closed : DlqStatus → String → Option String → ℕ → DlqEntry Payload → DlqEntry Payload
  closed status by notes now e = record e {
    status = status;
    resolved_by = some by;
    resolution_notes = notes;
    resolved_at = some now;
  }

  unfoldable pub mark_resolved :
      String
      → String
      → Option String
      → ℕ
      → DeadLetterQueue Payload
      → Result DlqError (DlqEntry Payload × DeadLetterQueue Payload)
  unfolding get_entry move_status
  mark_resolved entry_id by notes now q = get_entry entry_id q >>= λ e.
      let e' : DlqEntry Payload = closed resolved by notes now e in
      ok (e', move_status e.status e' q)

  unfoldable pub discard :
      String
      → String
      → Option String
      → ℕ
      → DeadLetterQueue Payload
      → Result DlqError (DlqEntry Payload × DeadLetterQueue Payload)
  unfolding get_entry move_status
  discard entry_id by notes now q = get_entry entry_id q >>= λ e.
      let e' : DlqEntry Payload = closed discarded by notes now e in
      if is_open e.status then ok (e', move_status e.status e' q) else err invalid_transition
