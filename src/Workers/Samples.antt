-- ===== src/Workers/Samples.antt =====
-- Tasks, and the theorems about them at these.
use ugem.Prelude.{ℕ, ◌≡◌, refl, true, none, some, [], ◌∷◌, put}
use ugem.Prelude.Int.{pos}
use ugem.Prelude.Sort.{sort}
use ugem.Types.{flag, ok}
use ugem.Planner.{Planner, new_planner, register_action, create_action_for_path}
use ugem.Workers.{
  Task, new_worker_pool, Handlers, result_of, execute_task, get_result, set_planner,
  resolver_number,
}
use ugem.Workers.Tasks.{execute_task-create_action_for_path}

abbrev buyer : Planner
buyer = register_action new_planner "order" 4

abbrev order_stock : Task
order_stock = record {
  action = create_action_for_path buyer "stock";
  execute = none;
  trace_id = "t";
}

abbrev handlers : Handlers
handlers = record { run = λ f. ok []; handle = λ n input. ok (("bought", flag true) ∷ []) }

execute_task-create_action_for_path_example :
    let w = set_planner (new_worker_pool (pos 10)) buyer in
    (n : ℕ) × (resolver_number w order_stock.action.type ≡ some n)
    × (get_result (execute_task handlers w order_stock) "stock_action"
        ≡ some (result_of "stock_action" (handlers.handle n order_stock.action.input)))
unfolding put create_action_for_path sort
execute_task-create_action_for_path_example =
    execute_task-create_action_for_path handlers (new_worker_pool (pos 10)) buyer "stock" "t"
      "stock_action" refl
