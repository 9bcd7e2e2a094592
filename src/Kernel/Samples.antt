-- ===== src/Kernel/Samples.antt =====
-- Runs of the runtime, and its theorems at them.
use ugem.Prelude.{ℕ, ◌≡◌, refl, true, none, some, List, [], ◌∷◌, get, put, inl, inr}
use ugem.Types.{Event, ok}
use ugem.SampleData.{amount, write, event_of, no_closures}
use ugem.Wal.{working}
use ugem.StateManager.{
  get_path, new_state_manager, lock, apply_event, replay_event, any_locked, lock_of, run_mutator,
  check_invariants, has_empty,
}
use ugem.EventLog.{append}
use ugem.Scheduler.{normal}
use ugem.Kernel.{
  Runtime, new_runtime, Outside, traced, numbered, settle_event, submit_event, replay,
}
use ugem.Kernel.Replaying.{submit_all, replay-submit_all}
use ugem.Prelude.{◌+◌, is_some, false, count, contains}
use ugem.SampleData.{waiting}
use ugem.Goal.{Closures, active, complete, failed, answer, ask, Goal, holds, track}
use ugem.GoalEngine.{new_goal_engine, evaluate}
use ugem.GoalEngine.Filing.{IsFiled}
use ugem.Memory.{new_short_term_memory}
use ugem.Dispatcher.{Attempts, ActionDispatcher}
use ugem.Prelude.Sort.{sort}
use ugem.Planner.{
  create_action_for_path, new_planner, register_action, resolve, build_action_plan,
  compute_action_sequence, gather_missing, has_id, gather_paths, gather_dependencies,
}
use ugem.Kernel.Processing.{
  Execution, new_execution, process_goal, release_place, is_overdue, PlanRun, execute_plan,
  compute_missing_conditions, plan_goal, plan_for, start_plan,
}
use ugem.Kernel.Plans.{IsOrderly, fresh, next, processing, releasing, changing, Reach-IsOrderly}
use ugem.Kernel.Results.{execute_plan-compute_missing_conditions}
use ugem.Kernel.Processing.{process_each}
use ugem.Kernel.Overdue.{process_each_overdue}
use ugem.Kernel.Passes.{NotSpawned}
use ugem.Kernel.Completion.{spawned_in, process_each_complete}
use ugem.Scheduler.Counts.{in_queue}

abbrev outside : ℕ → Outside
outside now = record {
  now = now;
  trace_id = "trace";
  disk = working;
  closures = no_closures;
  goal_order = [];
  subscriber_order = [];
}

abbrev deposit : Event
deposit = event_of ("account" ∷ []) none (write "account" 5 ∷ [])

abbrev two_deposits : List (Outside × Event)
two_deposits =
    (outside 3, deposit) ∷ (outside 8, event_of [] (some (λ d. ok (write "fee" 1 ∷ []))) []) ∷ []

abbrev up : Runtime
up = record (new_runtime normal) { running = true }

abbrev paid : Runtime
paid = (submit_all up two_deposits).0

replay-submit_all_example :
    ((replay paid).state_manager.data_map ≡ paid.state_manager.data_map)
    × ((replay paid).state_manager.clock ≡ paid.state_manager.clock)
unfolding submit_all submit_event append settle_event apply_event any_locked lock_of get run_mutator
    check_invariants
replay-submit_all_example =
    replay-submit_all normal paid two_deposits (inl refl, (inr refl, tt)) refl

-- Another holds the path that the event writes.
abbrev held : Runtime
held = record up { state_manager = (lock new_state_manager ("account" ∷ []) "audit").0 }

abbrev sent : Event
sent = numbered held.event_log.next_id (traced (outside 3) deposit)

-- What the refused deposit leaves is not what `Replay` rebuilds.
refused_deposit_comes_back :
    (get held.state_manager.data_map "account" ≡ none)
    × (get (replay_event held.state_manager.data_map sent) "account" ≡ some (amount 5))
unfolding lock replay_event get has_empty put
refused_deposit_comes_back = (refl, refl)

-- A goal that waits for the stock to be there, at most 5 long.
abbrev restock : Goal
restock = record (waiting "restock" "stock" active) {
  condition = some (ask "stock" (λ v. answer (is_some v)));
  started_at = some 2;
  timeout = 5;
}

-- A running runtime with a planner of one type of action and this goal.
abbrev busy : Execution
busy = record (new_execution normal) {
  runtime = record up {
    goal_engine = record new_goal_engine {
      goals = ("restock", restock) ∷ [];
      active_goals = "restock" ∷ [];
    };
  };
  planner = register_action new_planner "order" 0;
}

busy-IsFiled : IsFiled busy.runtime.goal_engine "restock"
unfolding count get
busy-IsFiled = record { actives = refl; pendings = refl }

none-NotSpawned : NotSpawned no_closures "restock"
unfolding count
none-NotSpawned f d = refl

-- A second goal stands before it in the pass.
abbrev audit : Goal
audit = waiting "audit" "books" active

process_each_overdue_example :
    get (process_each no_closures 8 busy (audit ∷ restock ∷ [])).runtime.goal_engine.goals "restock"
    ≡ some (record restock { state = failed })
unfolding is_overdue get
process_each_overdue_example =
    process_each_overdue no_closures 8 busy (audit ∷ []) [] restock refl refl busy-IsFiled
      none-NotSpawned (refl, tt) tt

-- The stock is there.
abbrev stocked : Execution
stocked = record busy {
  runtime = record busy.runtime {
    state_manager = record new_state_manager { data_map = ("stock", amount 3) ∷ [] };
  };
}

-- When it is there, two deliveries are to be unpacked, the first of them twice.
abbrev unpacking : Closures
unpacking = record {
  spawns = λ f d.
      waiting "crate" "dock" active
      ∷ waiting "box" "dock" active
      ∷ waiting "crate" "dock" active
      ∷ [];
  compensates = λ f d. none;
}

abbrev spawning : Goal
spawning = record restock { spawn = some 0 }

abbrev stocked_spawning : Execution
stocked_spawning = record stocked {
  runtime = record stocked.runtime {
    goal_engine = record new_goal_engine {
      goals = ("restock", spawning) ∷ [];
      active_goals = "restock" ∷ [];
    };
  };
}

spawning-IsFiled : IsFiled stocked_spawning.runtime.goal_engine "restock"
unfolding count get
spawning-IsFiled = record { actives = refl; pendings = refl }

unpacking-NotSpawned : NotSpawned unpacking "restock"
unfolding count
unpacking-NotSpawned f d = refl

process_each_complete_example :
    let y = process_each unpacking 4 stocked_spawning (audit ∷ spawning ∷ []) in
    (get y.runtime.goal_engine.goals "restock" ≡ some (record spawning { state = complete }))
    × (in_queue "crate" y.runtime.sched.priority_queue ≡ 2)
unfolding is_overdue get holds spawned_in in_queue count
process_each_complete_example =
    process_each_complete unpacking 4 stocked_spawning (audit ∷ []) [] spawning
      (ask "stock" (λ v. answer (is_some v))) "crate" refl refl refl refl spawning-IsFiled
      unpacking-NotSpawned (refl, tt) tt

-- The goal gets a plan, which gives its place back.
Reach-IsOrderly_example :
    IsOrderly (release_place (process_goal no_closures 4 busy restock) "restock")
unfolding evaluate track contains get is_overdue process_goal plan_goal plan_for start_plan
    compute_missing_conditions get_path resolve build_action_plan sort compute_action_sequence
    gather_missing has_id gather_paths gather_dependencies create_action_for_path put
Reach-IsOrderly_example = Reach-IsOrderly (
    next
      (next (next (fresh normal) (changing busy.runtime busy.planner))
        (processing no_closures 4 restock))
      (releasing "restock" refl))

abbrev attempts : Attempts
attempts = record {
  once = λ i. ok [];
  cancelled_before = λ i. false;
  cancelled_waiting = λ i. false;
  started = λ i. i;
  ended = λ i. i + 1;
  elapsed = λ i. 1;
  message = λ e. "failed";
}

abbrev ordering : PlanRun
ordering = record { attempts = λ i. attempts; is_nil = λ i. false; outside = λ i. outside (10 + i) }

abbrev idle : ActionDispatcher
idle = record {
  short_term_mem = new_short_term_memory 1000;
  metrics = record {
    total_actions = 0;
    successful_actions = 0;
    failed_actions = 0;
    avg_execution_time = 0;
    max_execution_time = 0;
    min_execution_time = 0;
  };
}

execute_plan-compute_missing_conditions_example :
    let plan = (resolve busy.planner ("stock" ∷ [])).1 in
    let r = (execute_plan ordering plan restock busy.runtime idle).0 in
    (r.state_manager.data_map ≡ []) × (compute_missing_conditions r restock ≡ "stock" ∷ [])
unfolding compute_missing_conditions get_path get
execute_plan-compute_missing_conditions_example =
    execute_plan-compute_missing_conditions ordering (resolve busy.planner ("stock" ∷ [])).1 restock
      busy.runtime idle
