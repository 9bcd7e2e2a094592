-- ===== src/Kernel/Recording.antt =====
-- runtime/kernel.go: an accepted event keeps the state as the log tells it.
use ugem.Prelude.{
  ℕ, ◌+◌, ◌≡◌, refl, sym, ap, subst, ◌∙◌, true, false, Option, none, some, List, [], ◌∷◌, ◌++◌,
  ◌==◌, if◌then◌else◌, u64, Bool-cases, inl, inr, arith,
}
use ugem.Types.{Error, runtime_not_running, Event, State, Result, ok, err}
use ugem.Wal.{Disk}
use ugem.StateManager.{apply_event, replay_event, replay_loop}
use ugem.StateManager.Events.{apply_event_frame}
use ugem.StateManager.Replay.{IsUnmixed, replay_event-apply_event}
use ugem.EventLog.{EventLog, append, stamp, record_event}
use ugem.Scheduler.{SchedulerMode}
use ugem.Kernel.{Runtime, Outside, new_runtime, traced, numbered, settle_event, submit_event}

pub replay_loop-append :
    (d : State) (clock : ℕ) (events : List Event) (event : Event)
    → (replay_loop d clock (events ++ event ∷ [])).0
        ≡ replay_event (replay_loop d clock events).0 event
      × ((replay_loop d clock (events ++ event ∷ [])).1 ≡ event.clock)
unfolding replay_loop
replay_loop-append d clock [] event = (refl, refl)
replay_loop-append d clock (x ∷ events) event =
    replay_loop-append (replay_event d x) x.clock events event

-- The log tells the state: its events rebuild the data and the clock of the live state.
pub record IsRecorded (r : Runtime) : Type 0 where
  pub data_told : (replay_loop [] 0 r.event_log.events).0 ≡ r.state_manager.data_map
  pub clock_told : (replay_loop [] 0 r.event_log.events).1 ≡ r.state_manager.clock
  pub same_clock : r.event_log.clock ≡ r.state_manager.clock
  pub in_memory : r.event_log.wal ≡ none

append_memory :
    (log : EventLog) (event : Event) (now : ℕ) (disk : Disk)
    → log.wal ≡ none
    → append log event now disk ≡ (record_event log (stamp log event now), ok log.next_id)
unfolding append
append_memory log event now disk memory = rw memory

settle_event-none :
    (out : Outside) (r r' : Runtime) (event : Event)
    → settle_event out r event ≡ (r', none)
    → (apply_event r.state_manager event ≡ (r'.state_manager, none)) × (r'.event_log ≡ r.event_log)
unfolding settle_event
settle_event-none out r r' event h = ground arith

abbrev pub logged : Outside → Runtime → Event → Runtime
logged out r event = record r {
  event_log = record_event r.event_log (stamp r.event_log (traced out event) out.now);
}

-- `SubmitEvent` once the log has answered.
unfoldable pub logged_event :
    Outside → Runtime → Event → EventLog × Result ℕ → Runtime × Option Error
logged_event out r event (log, answer) =
    let r' = record r { event_log = log } in
    elim answer [ err e ↦ (r', some e) | ok id ↦ settle_event out r' (numbered id event) ]

pub submit_event-eq-logged_event :
    (out : Outside) (r : Runtime) (event : Event)
    → r.running ≡ true
    → submit_event out r event
      ≡ logged_event out r
          (traced out event)
          (append r.event_log (traced out event) out.now out.disk)
unfolding submit_event logged_event
submit_event-eq-logged_event out r event up =
    ap
      (λ b.
        if b
        then logged_event out r (traced out event)
            (append r.event_log (traced out event) out.now out.disk)
        else (r, some runtime_not_running))
      up

pub submit_event-running :
    (out : Outside) (r : Runtime) (event : Event)
    → r.running ≡ true
    → r.event_log.wal ≡ none
    → submit_event out r event
      ≡ settle_event out (logged out r event) (numbered r.event_log.next_id (traced out event))
unfolding logged_event
submit_event-running out r event up memory =
    submit_event-eq-logged_event out r event up
    ∙ ap (logged_event out r (traced out event))
        (append_memory r.event_log (traced out event) out.now out.disk memory)

-- A runtime that is not running takes no event.
submit_event-stopped :
    (out : Outside) (r : Runtime) (event : Event)
    → r.running ≡ false
    → submit_event out r event ≡ (r, some runtime_not_running)
unfolding submit_event
submit_event-stopped out r event down = ground (arith, down)

running_of-none :
    (out : Outside) (r r' : Runtime) (event : Event)
    → submit_event out r event ≡ (r', none)
    → r.running ≡ true
running_of-none out r r' event h = elim (Bool-cases r.running) [
  | inl up ↦ up
  | inr down ↦ absurd (cc (h, submit_event-stopped out r event down))
]

-- What an accepted event does to log and state.
submit_event-none :
    (out : Outside) (r r' : Runtime) (event : Event)
    → r.event_log.wal ≡ none
    → submit_event out r event ≡ (r', none)
    → (apply_event r.state_manager (numbered r.event_log.next_id (traced out event))
        ≡ (r'.state_manager, none))
      × (r'.event_log ≡ record_event r.event_log (stamp r.event_log (traced out event) out.now))
submit_event-none out r r' event memory h =
    settle_event-none out (logged out r event) r' (numbered r.event_log.next_id (traced out event))
      (sym (submit_event-running out r event (running_of-none out r r' event h) memory) ∙ h)

-- Stamping, tracing and numbering leave alone how an event changes the state.
pub same_replay :
    (out : Outside) (r : Runtime) (event : Event) (d : State)
    → replay_event d (stamp r.event_log (traced out event) out.now)
      ≡ replay_event d (numbered r.event_log.next_id (traced out event))
unfolding replay_event
same_replay out r event d = refl

IsUnmixed-numbered :
    (out : Outside) (r : Runtime) (event : Event)
    → IsUnmixed event
    → IsUnmixed (numbered r.event_log.next_id (traced out event))
IsUnmixed-numbered out r event u = elim (Bool-cases (event.trace.trace_id == "")) [
  | inl e ↦ rw e u
  | inr e ↦ rw e u
]

-- An accepted event that changes the state in one of the two ways only keeps log and state together.
pub submit_event-IsRecorded :
    (out : Outside) (r r' : Runtime) (event : Event)
    → IsRecorded r
    → IsUnmixed event
    → submit_event out r event ≡ (r', none)
    → IsRecorded r'
submit_event-IsRecorded out r r' event h u accepted =
    let (applied, logged_as) = submit_event-none out r r' event h.in_memory accepted in
    let stamped = stamp r.event_log (traced out event) out.now in
    let sent = numbered r.event_log.next_id (traced out event) in
    let (told, clock) = replay_loop-append [] 0 r.event_log.events stamped in
    let framed = (apply_event_frame r.state_manager r'.state_manager sent none applied).1 refl in
    let clocks : u64 (r.event_log.clock + 1) ≡ r'.state_manager.clock =
      ap (λ n. u64 (n + 1)) h.same_clock ∙ sym framed.0 in
    record {
      data_told = rw logged_as (
          told
          ∙ ap (λ d. replay_event d stamped) h.data_told
          ∙ same_replay out r event r.state_manager.data_map
          ∙ replay_event-apply_event r.state_manager r'.state_manager sent
              (IsUnmixed-numbered out r event u) applied);
      clock_told = rw logged_as (clock ∙ clocks);
      same_clock = rw logged_as clocks;
      in_memory = rw logged_as h.in_memory;
    }

pub running_new-IsRecorded :
    (mode : SchedulerMode) (r : Runtime)
    → r ≡ record (new_runtime mode) { running = true }
    → IsRecorded r
unfolding replay_loop
running_new-IsRecorded mode r e =
    subst IsRecorded (sym e)
      (record { data_told = refl; clock_told = refl; same_clock = refl; in_memory = refl })
