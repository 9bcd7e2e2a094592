-- ===== src/EventLog.antt =====
-- runtime/event_log.go: the log of the events, in memory and, where persistence is set, in a
-- write-ahead log. A channel of replayed events is the list of what it delivers.
pub mod Numbers
pub mod Replaying
mod Samples
use ugem.Prelude.{
  ℕ, zero, suc, ◌+◌, ◌-◌, ◌^◌, Bool, true, false, not, ◌&&◌, ◌||◌, Option, none, some, List, [],
  ◌∷◌, ◌++◌, if◌then◌else◌, u64, nat_eq, ltb, leb, length, take, drop, get_elem?, last?,
}
use ugem.Types.{Event, Error, event_not_found, invalid_range, panic, Result, ok, err}
use ugem.Wal.{Wal, Disk, append_wal}

pub record EventLog : Type 0 where
  pub events : List Event
  pub clock : ℕ  -- uint64
  pub next_id : ℕ  -- uint64
  pub wal : Option Wal

abbrev pub new_event_log : EventLog
new_event_log = record { events = []; clock = 0; next_id = 1; wal = none }

-- The events of the file take the place of those in memory.
unfoldable pub set_persistence : EventLog → Wal → EventLog
set_persistence log w = elim (last? w.entries) [
  | none ↦ record log { events = w.entries; wal = some w }
  | some last ↦ record {
    events = w.entries;
    clock = last.clock;
    next_id = u64 (last.id + 1);
    wal = some w;
  }
]

abbrev pub stamp : EventLog → Event → ℕ → Event
stamp log event now = record event {
  id = log.next_id;
  clock = u64 (log.clock + 1);
  timestamp = now;
}

abbrev pub record_event : EventLog → Event → EventLog
record_event log event = record log {
  events = log.events ++ event ∷ [];
  next_id = u64 (event.id + 1);
  clock = event.clock;
}

-- `Append` at the instant `now`. With a write-ahead log the number is that log's.
unfoldable pub append : EventLog → Event → ℕ → Disk → EventLog × Result ℕ
append log event now disk =
    let event = stamp log event now in
    elim log.wal [
      | none ↦ (record_event log event, ok event.id)
      | some w ↦
          let (w', r) = append_wal w event now disk in
          elim r [
            | err e ↦ (record log { wal = some w' }, err e)
            | ok id ↦
                (record_event (record log { wal = some w' }) (record event { id = id }), ok id)
          ]
    ]

abbrev pub index : List Event → ℕ → Result Event
index events i = elim (get_elem? events i) [ none ↦ err panic | some event ↦ ok event ]

unfoldable pub get_event : EventLog → ℕ → Result Event
get_event log id =
    if nat_eq id 0 || leb log.next_id id then err event_not_found else index log.events (id - 1)

-- `Range`. `a - 1` on `uint64` is `a + (2 ^ 64 - 1)`, wrapped.
unfoldable pub range : EventLog → ℕ → ℕ → Result (List Event)
range log start end =
    if ltb end start
    then err invalid_range
    else (let first = if nat_eq start 0 then 1 else start in
        let last = if leb log.next_id end then u64 (log.next_id + (2 ^ 64 - 1)) else end in
        if ltb last first
        then ok []
        else if ltb (length log.events) last
        then err panic
        else ok (take (last - first + 1) (drop (first - 1) log.events)))

unfoldable pub log_length : EventLog → ℕ
log_length log = u64 (log.next_id + (2 ^ 64 - 1))

-- The events up to the first that is later than the instant; all of them for the zero instant.
unfoldable pub until : ℕ → List Event → List Event
until t [] = []
until t (event ∷ events) =
    let rest = until t events in
    if not (nat_eq t 0) && ltb t event.timestamp then [] else event ∷ rest

unfoldable pub replay_until : EventLog → ℕ → List Event
replay_until log t = until t log.events

unfoldable pub replay : EventLog → List Event
replay log = replay_until log 0
