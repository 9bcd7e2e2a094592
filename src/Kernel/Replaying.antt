-- ===== src/Kernel/Replaying.antt =====
-- The state against the log: what `Replay` and `Rewind` rebuild.
use ugem.Prelude.{
  ℕ, ◌<◌, ◌≡◌, refl, ap, subst, ◌∙◌, true, Option, none, some, List, [], ◌∷◌, ◌++◌, All, arith,
}
use ugem.Types.{Error, Event}
use ugem.StateManager.{apply_event, replay_event, replay_loop, reconstruct}
use ugem.StateManager.Replay.{IsUnmixed}
use ugem.EventLog.{EventLog, append, stamp, record_event, until, replay_until}
use ugem.EventLog as Log
use ugem.EventLog.Replaying.{until_zero, not_after, IsChronological, replay_until-eq-not_after}
use ugem.Scheduler.{SchedulerMode}
use ugem.Kernel.{
  Runtime, Outside, new_runtime, traced, numbered, settle_event, submit_event, replay, rewind,
}
use ugem.Kernel.Recording.{
  IsRecorded, logged, replay_loop-append, running_new-IsRecorded, same_replay,
  submit_event-IsRecorded, submit_event-running,
}

-- Events that are submitted one after the other and are all accepted, each with the outside it meets.
unfoldable pub submit_all : Runtime → List (Outside × Event) → Runtime × Option Error
submit_all r [] = (r, none)
submit_all r ((out, event) ∷ events) =
    let (r', e) = submit_event out r event in
    elim e [ some x ↦ (r', some x) | none ↦ submit_all r' events ]

submit_all-cons :
    (out : Outside) (event : Event) (events : List (Outside × Event)) (r r' : Runtime)
    → submit_all r ((out, event) ∷ events) ≡ (r', none)
    → (r1 : Runtime) × (submit_event out r event ≡ (r1, none)) × (submit_all r1 events ≡ (r', none))
unfolding submit_all
submit_all-cons out event events r r' h = ((submit_event out r event).0, ground arith, ground arith)

abbrev pub SendsUnmixed : Outside × Event → Type 0
SendsUnmixed (out, event) = IsUnmixed event

submit_all-IsRecorded :
    (r r' : Runtime) (events : List (Outside × Event))
    → IsRecorded r
    → All SendsUnmixed events
    → submit_all r events ≡ (r', none)
    → IsRecorded r'
unfolding submit_all
submit_all-IsRecorded r r' [] h u ran = subst IsRecorded (ap (λ x. x.0) ran) h
submit_all-IsRecorded r r' ((out, event) ∷ events) h u ran =
    let (r1, one, rest) = submit_all-cons out event events r r' ran in
    submit_all-IsRecorded r1 r' events (submit_event-IsRecorded out r r1 event h u.0 one) u.1 rest

replay_of-IsRecorded :
    (r : Runtime)
    → IsRecorded r
    → ((replay r).state_manager.data_map ≡ r.state_manager.data_map)
      × ((replay r).state_manager.clock ≡ r.state_manager.clock)
unfolding replay reconstruct Log.replay replay_until
replay_of-IsRecorded r h = rw (until_zero r.event_log.events) (h.data_told, h.clock_told)

-- `Replay` is faithful: when a new runtime that runs, with its log in memory, has accepted events
-- each with a mutator or mutations but not both, `Replay` leaves the data and the clock of the state
-- as the live run left them.
pub replay-submit_all :
    (mode : SchedulerMode) (r : Runtime) (events : List (Outside × Event))
    → All SendsUnmixed events
    → submit_all (record (new_runtime mode) { running = true }) events ≡ (r, none)
    → ((replay r).state_manager.data_map ≡ r.state_manager.data_map)
      × ((replay r).state_manager.clock ≡ r.state_manager.clock)
replay-submit_all mode r events u ran =
    let new = record (new_runtime mode) { running = true } in
    replay_of-IsRecorded r
      (submit_all-IsRecorded new r events (running_new-IsRecorded mode new refl) u ran)

settle_event-refused :
    (out : Outside) (r : Runtime) (event : Event) (e : Error)
    → (apply_event r.state_manager event).1 ≡ some e
    → settle_event out r event ≡ (r, some e)
unfolding settle_event
settle_event-refused out r event e h = ground arith

replay_after :
    (out : Outside) (r : Runtime) (event : Event)
    → IsRecorded r
    → (replay (logged out r event)).state_manager.data_map
      ≡ replay_event r.state_manager.data_map (numbered r.event_log.next_id (traced out event))
unfolding replay reconstruct Log.replay replay_until
replay_after out r event h =
    let stamped = stamp r.event_log (traced out event) out.now in
    rw (until_zero (r.event_log.events ++ stamped ∷ [])) (
      (replay_loop-append [] 0 r.event_log.events stamped).0
      ∙ ap (λ d. replay_event d stamped) h.data_told
      ∙ same_replay out r event r.state_manager.data_map)

-- In a running runtime whose log has recorded the state, an event that the state refuses, because a
-- write path is locked or an invariant breaks, is in the log all the same. The runtime's state, goals and clock are as before, yet `Replay` then applies
-- the refused event to the state that was recorded.
refused_event_is_replayed :
    (out : Outside) (r : Runtime) (event : Event) (e : Error)
    → IsRecorded r
    → r.running ≡ true
    → (apply_event r.state_manager (numbered r.event_log.next_id (traced out event))).1 ≡ some e
    → let r' = (submit_event out r event).0 in
      ((submit_event out r event).1 ≡ some e)
      × (r'.state_manager ≡ r.state_manager)
      × (r'.goal_engine ≡ r.goal_engine)
      × (r'.clock ≡ r.clock)
      × ((replay r').state_manager.data_map
          ≡ replay_event r.state_manager.data_map (numbered r.event_log.next_id (traced out event)))
refused_event_is_replayed out r event e h up refused =
    let sent = numbered r.event_log.next_id (traced out event) in
    rw
      (submit_event-running out r event up h.in_memory
        ∙ settle_event-refused out (logged out r event) sent e refused)
      (refl, refl, refl, refl, replay_after out r event h)

-- `Rewind` to an instant rebuilds, from a log that is in the order of time, the state of exactly the
-- events that are not later. The log keeps the later ones, though: where it had recorded the state,
-- `Replay` after the rewind undoes the rewind.
rewind-not_after :
    (r : Runtime) (t : ℕ)
    → 0 < t
    → IsChronological r.event_log.events
    → IsRecorded r
    → ((rewind r t).state_manager.data_map ≡ (replay_loop [] 0 (not_after t r.event_log.events)).0)
      × ((replay (rewind r t)).state_manager.data_map ≡ r.state_manager.data_map)
unfolding rewind reconstruct replay
rewind-not_after r t p h told = (
  ap (λ events. (replay_loop [] 0 events).0) (replay_until-eq-not_after r.event_log t p h).1,
  (replay_of-IsRecorded r told).0,
)
