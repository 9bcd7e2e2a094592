-- ===== src/Kernel/Processing.antt =====
-- runtime/kernel.go: one pass of the execution loop over the active goals, and the plans that it
-- starts. A plan runs in a goroutine of its own: its steps are functions of their own, so that they
-- can come in any order with the passes of the loop.
use ugem.Prelude.{
  ℕ, ◌+◌, ◌-◌, String, Bool, false, not, ◌&&◌, ◌||◌, Option, none, some, List, [], ◌∷◌, ◌++◌, GoMap,
  if◌then◌else◌, u64, ltb, contains, remove_first, is_some,
}
use ugem.Types.{Error, Event, TraceContext, Value}
use ugem.StateManager.{get_path}
use ugem.Goal.{Goal, Closures, holds}
use ugem.GoalEngine.{
  GoalEngine, fail_goal, complete_goal, evaluate, spawn_children, list_active_goals,
}
use ugem.Scheduler.{Scheduler, SchedulerMode, enqueue}
use ugem.Dispatcher.{ActionDispatcher, Attempts, execute_with_retry}
use ugem.Planner.{Action, Plan, Planner, resolve, resolve_with_fallback, new_planner}
use ugem.Kernel.{Runtime, Outside, new_runtime, submit_event}
use Prim.Native.String as Str

-- A plan is `running` as long as it holds a place of the semaphore, and `leaving` from then until its
-- goal is no longer marked as having a plan. `started` are all plans that were started, with their
-- goals.
pub record Execution : Type 0 where
  pub runtime : Runtime
  pub planner : Planner
  pub active_plans : List String
  pub plan_sem : ℕ
  pub running : List String
  pub leaving : List String
  pub started : List (Plan × Goal)

abbrev pub new_execution : SchedulerMode → Execution
new_execution mode = record {
  runtime = new_runtime mode;
  planner = new_planner;
  active_plans = [];
  plan_sem = 0;
  running = [];
  leaving = [];
  started = [];
}

abbrev pub max_plans : ℕ
max_plans = 100

abbrev pub max_duration : ℕ
max_duration = 9223372036854775807

-- `b.Sub(a)` for an instant that is not before the other; 0 where it is
abbrev pub elapsed : ℕ → ℕ → ℕ
elapsed a b = if ltb max_duration (b - a) then max_duration else b - a

-- The time that a goal is allowed is over, counted from its start.
abbrev pub outlasts : ℕ → Option ℕ → ℕ → Bool
outlasts now none allowed = false
outlasts now (some start) allowed = ltb allowed (elapsed start now)

-- The checks of the deadline and of the timeout.
unfoldable pub is_overdue : ℕ → Goal → Bool
is_overdue now g =
    let allowed = elapsed g.created_at g.deadline in
    (ltb 0 g.deadline
      && (ltb g.deadline now || (ltb 0 allowed && outlasts now g.started_at allowed)))
    || (ltb 0 g.timeout && outlasts now g.started_at g.timeout)

-- The path of the trigger, where the state does not have it or the condition does not hold.
unfoldable pub compute_missing_conditions : Runtime → Goal → List String
compute_missing_conditions r g = elim g.trigger.path [
  | none ↦ []
  | some path ↦
      let unmet : Bool = elim g.condition [
        | none ↦ false
        | some condition ↦ not (holds condition r.state_manager.data_map)
      ] in
      if is_some (get_path r.state_manager path)
      then (if unmet then path ∷ [] else [])
      else path ∷ []
]

unfoldable pub enqueue_all : Scheduler → List Goal → ℕ → Scheduler
enqueue_all s [] now = s
enqueue_all s (child ∷ children) now = enqueue_all (enqueue s child now) children now

abbrev pub with_engine : Execution → GoalEngine → Execution
with_engine x ge = record x { runtime = record x.runtime { goal_engine = ge } }

unfoldable pub fail_overdue : Execution → Goal → Execution
fail_overdue x g = with_engine x (fail_goal x.runtime.goal_engine g.id).0

-- A goal whose condition holds is complete, and its children are queued.
unfoldable pub complete_and_spawn : Closures → ℕ → Execution → Goal → Execution
complete_and_spawn closures now x g =
    let r = x.runtime in
    let ge = (complete_goal r.goal_engine g.id).0 in
    let (ge', children) = spawn_children closures ge g r.state_manager.data_map in
    record x { runtime = record r { goal_engine = ge'; sched = enqueue_all r.sched children now } }

-- The planner's answer, with the alternatives for a goal that is retried.
unfoldable pub plan_for : Planner → Goal → List String → Planner × Plan
plan_for p g missing =
    if is_some g.retry && ltb 0 g.attempts
    then resolve_with_fallback p g.id missing g.attempts
    else resolve p missing

-- A plan without actions, and one for which there is no room, is not started.
unfoldable pub start_plan : Execution → Goal → Plan → Execution
start_plan x g plan = elim plan.actions [
  | [] ↦ x
  | _ ∷ _ ↦
      if ltb x.plan_sem max_plans
      then record x {
        active_plans = g.id ∷ x.active_plans;
        plan_sem = x.plan_sem + 1;
        running = g.id ∷ x.running;
        started = x.started ++ (plan, g) ∷ [];
      }
      else x
]

unfoldable pub plan_goal : Execution → Goal → Execution
plan_goal x g =
    if contains g.id x.active_plans then x else elim (compute_missing_conditions x.runtime g) [
      | [] ↦ x
      | path ∷ paths ↦
          let (p, plan) = plan_for x.planner g (path ∷ paths) in
          start_plan (record x { planner = p }) g plan
    ]

-- The body of the loop.
unfoldable pub process_goal : Closures → ℕ → Execution → Goal → Execution
process_goal closures now x g =
    let r = x.runtime in
    let evaluated = evaluate r.goal_engine g r.state_manager.data_map in
    let x' = with_engine x evaluated.0 in
    if is_overdue now g
    then fail_overdue x g
    else if evaluated.1
    then complete_and_spawn closures now x' g
    else plan_goal x' g

unfoldable pub process_each : Closures → ℕ → Execution → List Goal → Execution
process_each closures now x [] = x
process_each closures now x (g ∷ goals) =
    process_each closures now (process_goal closures now x g) goals

unfoldable pub process_goals : Closures → ℕ → Execution → Execution
process_goals closures now x = process_each closures now x (list_active_goals x.runtime.goal_engine)

-- What a plan does at its end, in two steps: it gives its place back, then its goal may be planned.
unfoldable pub release_place : Execution → String → Execution
release_place x id = record x {
  plan_sem = x.plan_sem - 1;
  running = remove_first id x.running;
  leaving = id ∷ x.leaving;
}

unfoldable pub forget_plan : Execution → String → Execution
forget_plan x id = record x {
  active_plans = remove_first id x.active_plans;
  leaving = remove_first id x.leaving;
}

-- What the actions of a plan meet, by their position.
pub record PlanRun : Type 0 where
  pub attempts : ℕ → Attempts
  pub is_nil : ℕ → Bool  -- the output is a nil map
  pub outside : ℕ → Outside

abbrev pub result_event : GoMap Value → Action → TraceContext → Event
result_event output action trace = record {
  id = 0;
  clock = 0;
  timestamp = 0;
  type = Str.◌++◌ action.type "_result";
  read_paths = [];
  write_paths = action.id ∷ [];
  payload = output;
  trace = trace;
  state_mutator = none;
  state_mutations = [];
  correction_of = 0;
}

unfoldable pub submit_event_from_action :
    Outside → Runtime → GoMap Value → Action → TraceContext → Runtime
submit_event_from_action out r output action trace =
    (submit_event out r (result_event output action trace)).0

abbrev pub action_trace : Goal → Action → TraceContext
action_trace g action = record g.trace { action_id = action.id; goal_id = g.id }

-- After one action: its output is submitted, unless it failed or there is none.
unfoldable pub submit_output :
    Outside → Bool → Runtime → Goal → Action → Option (GoMap Value) × Option Error → Runtime
submit_output out is_nil r g action (result, some e) = r
submit_output out is_nil r g action (none, none) = r
submit_output out is_nil r g action (some output, none) =
    if is_nil then r else submit_event_from_action out r output action (action_trace g action)

-- The executions are numbered by the event 0.
unfoldable pub execute_actions :
    PlanRun → Goal → ℕ → List Action → Runtime → ActionDispatcher → Runtime × ActionDispatcher
execute_actions run g i [] r ad = (r, ad)
execute_actions run g i (action ∷ actions) r ad =
    let (ad', result, e) =
      execute_with_retry (run.attempts i) action.id "0" action.input action.retries ad in
    execute_actions run g (i + 1) actions
      (submit_output (run.outside i) (run.is_nil i) r g action (result, e)) ad'

unfoldable pub execute_plan :
    PlanRun → Plan → Goal → Runtime → ActionDispatcher → Runtime × ActionDispatcher
execute_plan run plan g r ad =
    let (r', ad') = execute_actions run g 0 plan.actions r ad in
    (record r' { clock = u64 (r'.clock + 1) }, ad')

-- `Simulate` asks a planner of its own, and gives the ids of the actions that it would execute.
unfoldable pub action_ids : List Action → List String
action_ids [] = []
action_ids (action ∷ actions) = action.id ∷ action_ids actions

unfoldable pub simulate : Runtime → Goal → List String
simulate r g = action_ids (resolve new_planner (compute_missing_conditions r g)).1.actions
