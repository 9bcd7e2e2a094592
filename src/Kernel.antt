-- ===== src/Kernel.antt =====
-- runtime/kernel.go: the runtime ties the parts together. What comes from outside one call is in
-- `Outside`: the wall clock, the disk, the client's functions and the orders of visits of maps.
pub mod Recording
pub mod Replaying
pub mod Processing
pub mod Plans
pub mod Results
pub mod Passes
pub mod Overdue
pub mod Completion
mod Samples
use ugem.Prelude.{
  ℕ, ◌+◌, ◌≡◌, String, Bool, true, false, Option, none, some, List, [], ◌∷◌, ◌==◌, if◌then◌else◌,
  u64, last?,
}
use ugem.Prelude.Decimal.{decimal}
use ugem.Types.{Error, runtime_not_running, Event, TraceContext, Result, ok, err}
use ugem.Wal.{Wal, Disk}
use ugem.StateManager.{StateManager, new_state_manager, apply_event, reconstruct}
use ugem.EventLog.{EventLog, new_event_log, append, replay_until, set_persistence}
use ugem.EventLog as Log
use ugem.Goal.{Goal, Closures}
use ugem.GoalEngine.{GoalEngine, new_goal_engine, add_goal, handle_event}
use ugem.Scheduler.{Scheduler, SchedulerMode, new_scheduler, enqueue}
use ugem.EventBus.{EventBus, new_event_bus, publish}

pub record Runtime : Type 0 where
  pub state_manager : StateManager
  pub event_log : EventLog
  pub goal_engine : GoalEngine
  pub sched : Scheduler
  pub event_bus : EventBus
  pub clock : ℕ  -- atomic uint64
  pub running : Bool

abbrev pub new_runtime : SchedulerMode → Runtime
new_runtime mode = record {
  state_manager = new_state_manager;
  event_log = new_event_log;
  goal_engine = new_goal_engine;
  sched = new_scheduler mode;
  event_bus = new_event_bus;
  clock = 0;
  running = false;
}

pub record Outside : Type 0 where
  pub now : ℕ
  pub trace_id : String
  pub disk : Disk
  pub closures : Closures
  pub goal_order : List String
  pub subscriber_order : List String

-- A trace without a number gets one.
abbrev pub traced : Outside → Event → Event
traced out event =
    if event.trace.trace_id == ""
    then record event { trace = record event.trace { trace_id = out.trace_id } }
    else event

abbrev pub numbered : ℕ → Event → Event
numbered id event = record event {
  id = id;
  trace = record event.trace { parent_event_id = decimal id };
}

-- After the log has taken the event: the state, then the goals, then the subscribers.
unfoldable pub settle_event : Outside → Runtime → Event → Runtime × Option Error
settle_event out r event =
    let (sm, e) = apply_event r.state_manager event in
    elim e [
      | some x ↦ (r, some x)
      | none ↦ (
        record r {
          state_manager = sm;
          goal_engine = handle_event out.closures sm.data_map r.goal_engine out.goal_order event;
          event_bus = (publish r.event_bus out.subscriber_order event).0;
          clock = u64 (r.clock + 1);
        },
        none,
      )
    ]

unfoldable pub submit_event : Outside → Runtime → Event → Runtime × Option Error
submit_event out r event =
    if r.running
    then (let event = traced out event in
        let (log, answer) = append r.event_log event out.now out.disk in
        let r' = record r { event_log = log } in
        elim answer [ err e ↦ (r', some e) | ok id ↦ settle_event out r' (numbered id event) ])
    else (r, some runtime_not_running)

abbrev pub traced_goal : Outside → Goal → Goal
traced_goal out goal =
    if goal.trace.trace_id == ""
    then record goal { trace = record goal.trace { trace_id = out.trace_id; goal_id = goal.id } }
    else goal

unfoldable pub submit_goal : Outside → Runtime → Goal → Runtime × Option Error
submit_goal out r goal =
    if r.running
    then (let goal = traced_goal out goal in
        let (ge, e) = add_goal r.goal_engine goal out.now in
        elim e [
          | some x ↦ (record r { goal_engine = ge }, some x)
          | none ↦ (record r { goal_engine = ge; sched = enqueue r.sched goal out.now }, none)
        ])
    else (r, some runtime_not_running)

-- The state is rebuilt from all events of the log.
unfoldable pub replay : Runtime → Runtime
replay r = record r { state_manager = reconstruct r.state_manager (Log.replay r.event_log) }

abbrev pub last_clock : List Event → ℕ
last_clock events = elim (last? events) [ none ↦ 0 | some event ↦ event.clock ]

-- The state is rebuilt from the events up to an instant; the log keeps all of them. A runtime that
-- was running is stopped before and started again after.
unfoldable pub rewind : Runtime → ℕ → Runtime
rewind r t =
    let events = replay_until r.event_log t in
    record r { state_manager = reconstruct r.state_manager events; clock = last_clock events }

-- `SetPersistence` with the log of a store
unfoldable pub persist : Runtime → Wal → Runtime
persist r w =
    let log = set_persistence r.event_log w in
    let r' = record r { event_log = log } in
    elim log.events [
      | [] ↦ r'
      | _ ∷ _ ↦ record r' {
        state_manager = reconstruct r.state_manager log.events;
        clock = last_clock log.events;
      }
    ]
