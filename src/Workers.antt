-- ===== src/Workers.antt =====
-- runtime/action_dispatcher.go: the queue of tasks, and what a worker does with one. The functions of
-- the client are numbers, and `Handlers` says what they return; a task that it has queued is in the
-- queue until a worker takes it. The channels of a result and of a cancellation are left out.
pub mod Tasks
mod Samples
use ugem.Prelude.{
  ℕ, ◌+◌, ◌≡◌, String, Bool, true, false, Option, none, some, List, [], ◌∷◌, ◌++◌, GoMap, ◌==◌,
  if◌then◌else◌, u64, ltb, get, put, delete, length, is_some,
}
use ugem.Prelude.Int.{ℤ}
use ugem.Types.{Error, other, invalid_action, Value, text, Result, ok, err}
use ugem.Planner.{Action, Planner, get_action_resolver}
use Prim.Native.String as Str

-- `execute` is the number of the action's own function, if it has one.
pub record Task : Type 0 where
  pub action : Action
  pub execute : Option ℕ
  pub trace_id : String

pub record ActionResult : Type 0 where
  pub action_id : String
  pub success : Bool
  pub output : GoMap Value
  pub error : Option Error

pub record WorkerPool : Type 0 where
  pub worker_count : ℤ
  pub task_queue : List Task
  pub result_cache : GoMap ActionResult
  pub active_tasks : GoMap Task
  pub clock : ℕ  -- uint64
  pub running : Bool
  pub external_workers : GoMap String
  pub planner : Option Planner

abbrev pub new_worker_pool : ℤ → WorkerPool
new_worker_pool worker_count = record {
  worker_count = worker_count;
  task_queue = [];
  result_cache = [];
  active_tasks = [];
  clock = 0;
  running = false;
  external_workers = [];
  planner = none;
}

pub record Handlers : Type 0 where
  pub run : ℕ → Result (GoMap Value)
  pub handle : ℕ → GoMap Value → Result (GoMap Value)

abbrev pub queue_size : ℕ
queue_size = 1000

unfoldable pub execute_async : WorkerPool → Task → WorkerPool × Option Error
execute_async w task =
    if ltb (length w.task_queue) queue_size
    then (record w { task_queue = w.task_queue ++ task ∷ [] }, none)
    else (w, some (other "no available workers"))

unfoldable pub cancel_action : WorkerPool → String → WorkerPool × Bool
cancel_action w id =
    if is_some (get w.active_tasks id)
    then (record w { active_tasks = delete w.active_tasks id }, true)
    else (w, false)

-- The answer of an external worker, which the source makes up.
abbrev pub dispatch_to_external_worker : String → Task → Result (GoMap Value)
dispatch_to_external_worker addr task = ok (
    ("worker_addr", text addr)
    ∷ (
      "idempotency_key",
      text (Str.◌++◌ "idempotency-" (Str.◌++◌ task.trace_id (Str.◌++◌ "-" task.action.id))),
    )
    ∷ ("status", text "completed")
    ∷ ("trace_id", text task.trace_id)
    ∷ [])

-- The resolver for the type of an action, if there is a planner that has one.
abbrev pub resolver_number : WorkerPool → String → Option ℕ
resolver_number w type = elim w.planner [
  | none ↦ none
  | some p ↦ elim (get_action_resolver p type) [ none ↦ none | some r ↦ some r.handler ]
]

-- The action's own function, then the resolver of its type, then the external worker.
unfoldable pub outcome_of : Handlers → WorkerPool → Task → Result (GoMap Value)
outcome_of h w task = elim task.execute [
  | some f ↦ h.run f
  | none ↦ elim (resolver_number w task.action.type) [
    | some n ↦ h.handle n task.action.input
    | none ↦ elim (get w.external_workers task.action.type) [
      | some addr ↦ dispatch_to_external_worker addr task
      | none ↦ err invalid_action
    ]
  ]
]

unfoldable pub result_of : String → Result (GoMap Value) → ActionResult
result_of id (err e) = record { action_id = id; success = false; output = []; error = some e }
result_of id (ok output) = record { action_id = id; success = true; output = output; error = none }

-- The task is filed as active after it has run, and taken out in the same critical section.
unfoldable pub execute_task : Handlers → WorkerPool → Task → WorkerPool
execute_task h w task = record w {
  active_tasks = delete (put w.active_tasks task.action.id task) task.action.id;
  result_cache = put w.result_cache task.action.id (result_of task.action.id (outcome_of h w task));
}

-- One turn of the loop of a worker.
unfoldable pub run_worker : Handlers → WorkerPool → WorkerPool
run_worker h w = elim w.task_queue [
  | [] ↦ w
  | task ∷ tasks ↦ execute_task h (record w { task_queue = tasks }) task
]

abbrev pub start_workers : WorkerPool → WorkerPool
start_workers w = record w { running = true }

abbrev pub stop_workers : WorkerPool → WorkerPool
stop_workers w = record w { running = false }

unfoldable pub set_worker_count : WorkerPool → ℤ → WorkerPool
set_worker_count w count = if w.running then w else record w { worker_count = count }

abbrev pub get_result : WorkerPool → String → Option ActionResult
get_result w id = get w.result_cache id

abbrev pub clear_cache : WorkerPool → WorkerPool
clear_cache w = record w { result_cache = [] }

abbrev pub set_planner : WorkerPool → Planner → WorkerPool
set_planner w p = record w { planner = some p }

abbrev pub advance_clock : WorkerPool → WorkerPool × ℕ
advance_clock w = let now = u64 (w.clock + 1) in (record w { clock = now }, now)

abbrev pub register_external_worker : WorkerPool → String → String → WorkerPool
register_external_worker w type addr = record w {
  external_workers = put w.external_workers type addr;
}
