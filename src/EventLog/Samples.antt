-- ===== src/EventLog/Samples.antt =====
-- Runs of the event log, and its theorems at them.
use ugem.Prelude.{◌≡◌, refl, none, [], ◌∷◌, if◌then◌else◌, nat_eq, arith}
use ugem.Types.{ok, Event}
use ugem.SampleData.{event_of, write}
use ugem.Wal.{Wal, working}
use ugem.EventLog.{EventLog, new_event_log, append, stamp, get_event}
use ugem.EventLog.Numbers.{IsDense, get_event-append}

abbrev deposit : Event
deposit = event_of ("x" ∷ []) none (write "x" 1 ∷ [])

abbrev one_event : EventLog
one_event = (append new_event_log deposit 5 working).0

new_event_log-IsDense : IsDense new_event_log
new_event_log-IsDense = record { numbered = tt; next = refl; now = refl; room = omega arith }

one_event-IsDense : IsDense one_event
unfolding append
one_event-IsDense = record {
  numbered = (refl, refl, tt);
  next = refl;
  now = refl;
  room = omega arith;
}

get_event-append_example :
    ((append one_event deposit 8 working).1 ≡ ok one_event.next_id)
    × (get_event (append one_event deposit 8 working).0 1 ≡ (
        if nat_eq 1 one_event.next_id
        then ok (stamp one_event deposit 8)
        else get_event one_event 1))
unfolding append
get_event-append_example =
    get_event-append one_event deposit 8 1 working one_event-IsDense refl (omega arith)

abbrev empty_wal : Wal
empty_wal = record { entries = []; event_count = 0; clock = 0 }
