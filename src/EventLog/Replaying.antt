-- ===== src/EventLog/Replaying.antt =====
-- Replays up to an instant, and the log behind a write-ahead log that fails.
use ugem.Prelude.{
  ℕ, ◌+◌, ◌^◌, ◌≤◌, ◌<◌, ◌≡◌, refl, true, false, some, List, [], ◌∷◌, ◌++◌, if◌then◌else◌, u64, leb,
  length, get_elem?-append_one, get_elem?_beyond, All, arith, Bool-cases, inl, inr,
}
use ugem.Types.{Event, panic, ok, err}
use ugem.Wal.{Wal, Disk, append_wal, working}
use ugem.EventLog.{EventLog, append, stamp, get_event, until, replay_until, replay}

-- Each event is no later than those behind it.
abbrev pub IsChronological : List Event → Type 0
IsChronological [] = Unit
IsChronological (event ∷ events) =
    All (λ later. event.timestamp ≤ later.timestamp) events × IsChronological events

-- the events that are not later than an instant
pub not_after : ℕ → List Event → List Event
not_after t [] = []
not_after t (event ∷ events) =
    let rest = not_after t events in if leb event.timestamp t then event ∷ rest else rest

not_after_late :
    (t : ℕ) (events : List Event)
    → All (λ later. t < later.timestamp) events
    → not_after t events ≡ []
unfolding not_after
not_after_late t [] h = refl
not_after_late t (event ∷ events) h = ground (arith, not_after_late t events h.1, h.0)

All-lt_trans :
    (t m : ℕ) (events : List Event)
    → t < m
    → All (λ later. m ≤ later.timestamp) events
    → All (λ later. t < later.timestamp) events
All-lt_trans t m [] p h = tt
All-lt_trans t m (event ∷ events) p h = (omega (arith, h.0), All-lt_trans t m events p h.1)

until-eq-not_after :
    (t : ℕ) (events : List Event)
    → 0 < t
    → IsChronological events
    → until t events ≡ not_after t events
unfolding until not_after
until-eq-not_after t [] p h = refl
until-eq-not_after t (event ∷ events) p h = elim (Bool-cases (leb event.timestamp t)) [
  | inl early ↦ ground (arith, until-eq-not_after t events p h.1)
  | inr late ↦
      ground
        (arith, not_after_late t events (All-lt_trans t event.timestamp events (ground arith) h.0))
]

pub until_zero : (events : List Event) → until 0 events ≡ events
unfolding until
until_zero [] = refl
until_zero (event ∷ events) = ground (arith, until_zero events)

-- `Replay` delivers every event. `ReplayUntil` an instant other than the zero time delivers, if the log is in the order of
-- time, exactly the events that are not later than it, in order.
pub replay_until-eq-not_after :
    (log : EventLog) (t : ℕ)
    → 0 < t
    → IsChronological log.events
    → (replay log ≡ log.events) × (replay_until log t ≡ not_after t log.events)
unfolding replay replay_until
replay_until-eq-not_after log t p h = (until_zero log.events, until-eq-not_after t log.events p h)

append_failed :
    (log : EventLog) (w : Wal) (lost : Event) (t : ℕ) (disk : Disk)
    → log.wal ≡ some w
    → disk.marshals ≡ true
    → disk.writes ≡ false
    → (append log lost t disk).0
      ≡ record log { wal = some (record w { event_count = u64 (w.event_count + 1) }) }
unfolding append append_wal
append_failed log w lost t disk persistent marshals fails = rw (persistent, marshals, fails)

-- The appended event, where the write-ahead log gives it its number.
append-working :
    (log : EventLog) (w : Wal) (event : Event) (t n : ℕ)
    → log.wal ≡ some w
    → n ≡ u64 (w.event_count + 1)
    → ((append log event t working).1 ≡ ok n)
      × ((append log event t working).0.next_id ≡ u64 (n + 1))
      × ((append log event t working).0.events
          ≡ log.events ++ record (stamp log event t) { id = n } ∷ [])
unfolding append append_wal
append-working log w event t n persistent e = rw (persistent, e) (refl, refl, refl)

-- A write that fails after its number is taken leaves a gap, in a log whose write-ahead log counts its
-- events: the next event that is appended gets
-- the number after the lost one, and `Get` of the number that `Append` returned panics.
get_event_after_failed_write :
    (log : EventLog) (w : Wal) (lost event : Event) (t u : ℕ) (disk : Disk)
    → log.wal ≡ some w
    → w.event_count ≡ length log.events
    → length log.events + 3 < 2 ^ 64
    → disk.marshals ≡ true
    → disk.writes ≡ false
    → let failed = (append log lost t disk).0 in
      ((append failed event u working).1 ≡ ok (length log.events + 2))
      × (get_event (append failed event u working).0 (length log.events + 2) ≡ err panic)
unfolding get_event
get_event_after_failed_write log w lost event t u disk persistent counted room marshals fails =
    let n = length log.events in
    let w' = record w { event_count = u64 (w.event_count + 1) } in
    let (returned, next, events) =
      append-working (record log { wal = some w' }) w' event u (n + 2) refl (omega arith) in
    rw (append_failed log w lost t disk persistent marshals fails) (
      returned,
      ground (
        arith,
        next,
        events,
        get_elem?-append_one log.events
            (record (stamp (record log { wal = some w' }) event u) { id = n + 2 }) (n + 1),
        get_elem?_beyond log.events (n + 1),
      ),
    )
