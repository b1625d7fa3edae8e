-- ===== src/Resilience/Tests.antt =====
-- The dead letter queue with one failed item, and a cycle of causes.
use reg_engine_ai.Base.{
  Option, ◌∷◌, ◌==◌, if◌then◌else◌, ◌⊎◌, arith, ℕ, ◌≤◌, ◌≡◌, refl, true, false, none, some, [], ok,
  lookup, insert, length, all_of,
}
use reg_engine_ai.Resilience.Retry.{is_seen, is_transient}
use reg_engine_ai.Resilience.Causes.{Behind, is_transient_exact}
use reg_engine_ai.Resilience.Queue.{
  rss_polling, pending, discarded, Failure, DlqEntry, DeadLetterQueue, send, get_entry, persist_new,
}
use reg_engine_ai.Resilience.Indexes.{IsIndexed}
use reg_engine_ai.Resilience.Transitions.{sends, idle, serves, Serves-IsIndexed}
use reg_engine_ai.Resilience.Reading.{list_entries}
use reg_engine_ai.Resilience.Listing.{fits, list_entries-fits}

abbrev empty_queue : DeadLetterQueue ℕ
empty_queue = record { entries = []; all = []; by_category = λ c. []; by_status = λ s. [] }

abbrev timeout : Failure
timeout = record { error_type = "TimeoutError"; error_message = "feed"; traceback = none }

abbrev after_send : DlqEntry ℕ × DeadLetterQueue ℕ
after_send = send "d1" 10 rss_polling "poll" 3 timeout none 5 empty_queue

empty_queue-IsIndexed : IsIndexed empty_queue
unfolding lookup
empty_queue-IsIndexed k = (refl, refl, λ c. refl, λ s. refl)

no_d1 : lookup "d1" empty_queue.entries ≡ none
unfolding lookup
no_d1 = refl

Serves-IsIndexed_example : IsIndexed after_send.1
Serves-IsIndexed_example =
    Serves-IsIndexed (serves idle (sends "d1" 10 rss_polling "poll" 3 timeout none 5 no_d1))
      empty_queue-IsIndexed

abbrev dropped : DlqEntry ℕ
dropped = record {
  entry_id = "d1";
  category = rss_polling;
  task_name = "poll";
  original_task_id = none;
  payload = 3;
  failure = timeout;
  attempt_count = 5;
  first_failed_at = 10;
  last_failed_at = 10;
  status = discarded;
  requeued_at = none;
  requeued_by = none;
  requeued_task_id = none;
  resolution_notes = none;
  resolved_by = some "officer-1";
  resolved_at = some 20;
}

abbrev closed_queue : DeadLetterQueue ℕ
closed_queue = persist_new dropped empty_queue

get_entry-closed_queue : get_entry "d1" closed_queue ≡ ok dropped
unfolding get_entry persist_new lookup insert
get_entry-closed_queue = refl

list_entries-fits_example :
    (all_of
        (fits (some rss_polling) (some pending))
        (list_entries (some rss_polling) (some pending) 50 0 after_send.1)
      ≡ true)
    × (length (list_entries (some rss_polling) (some pending) 50 0 after_send.1) ≤ 50)
list_entries-fits_example = list_entries-fits (some rss_polling) (some pending) 50 0 after_send.1 (
    Serves-IsIndexed (serves idle (sends "d1" 10 rss_polling "poll" 3 timeout none 5 no_d1))
      empty_queue-IsIndexed)

-- Two exceptions that name each other as the cause, neither of them transient.
abbrev circle : ℕ → Option ℕ
circle n = if n == 0 then some 1 else some 0

circle-closed :
    (y z : ℕ) → is_seen (0 ∷ 1 ∷ []) y ≡ true → circle y ≡ some z → is_seen (0 ∷ 1 ∷ []) z ≡ true
unfolding is_seen
circle-closed y z h e = ground (arith, e)

is_transient_exact_example :
    ((is_transient circle (λ n. false) 3 0 ≡ some true)
      × ((y : ℕ) × Behind circle 0 y × (false ≡ true)))
    ⊎ ((is_transient circle (λ n. false) 3 0 ≡ some false)
        × ((y : ℕ) → Behind circle 0 y → false ≡ false))
unfolding is_seen
is_transient_exact_example =
    is_transient_exact circle (λ n. false) (0 ∷ 1 ∷ []) 0 circle-closed refl
