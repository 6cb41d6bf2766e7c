-- ===== src/Examples/Journals.antt =====
-- A journal of one event, its growth, and what its check sees of a change.
use shift_wise.Prelude.{ℕ, ◌≡◌, refl, true, none, some, [], ◌∷◌, ◌++◌}
use shift_wise.Audit.Event.{Hash, Event, state_transition}
use shift_wise.Audit.Journal.{
  content_of, record_event, previous_row_hash, NewEvent, new_row, verify_from, verify_event_chain,
  log_of,
}
use shift_wise.Audit.Journal.Integrity.{record_event-verify_event_chain}
use shift_wise.Audit.Journal.Tamper.{verify_event_chain_unique, newest_rows-unprotected}
use shift_wise.Migration.Status.{pending}
use shift_wise.Examples.Hashing.{Chain, keeping}

abbrev submitted : NewEvent
submitted = record {
  migration_id = 1;
  tenant_id = "acme";
  event_type = state_transition;
  from_status = none;
  to_status = some pending;
  actor_id = none;
  actor_type = "user";
  message = some "submitted";
  payload = none;
}

abbrev elsewhere : NewEvent
elsewhere = record submitted { migration_id = 2 }

abbrev first : Event Chain
first = new_row keeping submitted []

abbrev second : Event Chain
second = new_row keeping elsewhere (first ∷ [])

empty_log : (m : ℕ) → verify_event_chain keeping m [] ≡ (true, none)
unfolding verify_event_chain log_of
empty_log m = refl

record_event-verify_event_chain_example :
    (log_of 1 (first ∷ []) ≡ log_of 1 [] ++ first ∷ [])
    × (verify_event_chain keeping 1 (first ∷ []) ≡ (true, none))
record_event-verify_event_chain_example =
    record_event-verify_event_chain keeping submitted [] (first ∷ []) 1
      (unfold record_event in refl) (empty_log 1)

first_log : verify_event_chain keeping 1 (first ∷ []) ≡ (true, none)
first_log =
    (record_event-verify_event_chain keeping submitted [] (first ∷ []) 1
      (unfold record_event in refl) (empty_log 1)).1

second_log : verify_event_chain keeping 1 (first ∷ second ∷ []) ≡ (true, none)
second_log =
    (record_event-verify_event_chain keeping elsewhere (first ∷ []) (first ∷ second ∷ []) 1
      (unfold record_event in refl) first_log).1

verify_event_chain_unique_example : log_of 1 (first ∷ []) ≡ log_of 1 (first ∷ second ∷ [])
verify_event_chain_unique_example =
    verify_event_chain_unique keeping 1 (first ∷ []) (first ∷ second ∷ [])
      (unfold log_of new_row in (refl, tt)) (unfold log_of new_row in (refl, tt)) first_log
      second_log (unfold previous_row_hash log_of new_row in refl)

newest_rows-unprotected_example :
    (verify_from keeping (Hash.genesis keeping) [] ≡ (true, none))
    × (verify_from keeping
          (Hash.genesis keeping)
          (record first { content = content_of elsewhere 9; row_hash = none } ∷ [])
        ≡ (true, none))
newest_rows-unprotected_example =
    newest_rows-unprotected keeping [] [] first (content_of elsewhere 9)
      (unfold verify_event_chain log_of new_row in first_log)
