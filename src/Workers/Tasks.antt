-- ===== src/Workers/Tasks.antt =====
-- What becomes of a task.
use ugem.Prelude.{
  ℕ, ◌<◌, ◌≡◌, ◌≢◌, refl, ap, ◌∙◌, String, true, false, none, some, List, [], ◌∷◌, GoMap, ◌==◌,
  if◌then◌else◌, keys, get, get-put, get-delete, put, length, ltb, count, is_some, eq_iff, eq_refl,
  arith, list_cases, Option-cases, inl, inr,
}
use ugem.Prelude.Int.{ℤ}
use ugem.Prelude.Sort.{sort, count-sort}
use ugem.Prelude.StringOrder.{str_ltb}
use ugem.Planner.{Planner, ActionResolver, create_action_for_path}
use ugem.Planner.Plans.{is_able}
use ugem.Workers.{
  Task, WorkerPool, new_worker_pool, Handlers, execute_async, cancel_action, outcome_of, result_of,
  execute_task, run_worker, start_workers, stop_workers, set_worker_count, get_result, clear_cache,
  set_planner, register_external_worker, resolver_number,
}

-- One call.
pub data Step (w : WorkerPool) : WorkerPool → Type 0 where
  queueing : (task : Task) → Step w (execute_async w task).0
  cancelling : (id : String) → Step w (cancel_action w id).0
  working : (h : Handlers) → Step w (run_worker h w)
  starting : Step w (start_workers w)
  stopping : Step w (stop_workers w)
  resizing : (n : ℤ) → Step w (set_worker_count w n)
  clearing : Step w (clear_cache w)
  planning : (p : Planner) → Step w (set_planner w p)
  registering : (type addr : String) → Step w (register_external_worker w type addr)

pub data Reach : WorkerPool → Type 0 where
  fresh : (n : ℤ) → Reach (new_worker_pool n)
  next : {v w : WorkerPool} → Reach v → Step v w → Reach w

-- No task is filed as active.
abbrev IsIdle : WorkerPool → Type 0
IsIdle w = (id : String) → get w.active_tasks id ≡ none

Step-IsIdle : {v w : WorkerPool} → Step v w → IsIdle v → IsIdle w
unfolding execute_async cancel_action run_worker execute_task set_worker_count
Step-IsIdle {v} (queueing task) idle id = ground (arith, idle id)
Step-IsIdle {v} (cancelling j) idle id = ground (arith, idle id, idle j)
Step-IsIdle {v} (working h) idle id = elim (list_cases v.task_queue) [
  | inl e ↦ ground (arith, e, idle id)
  | inr (task, tasks, e) ↦
      rw (e, run_worker)
        (get-delete (put v.active_tasks task.action.id task) task.action.id id
          ∙ ground (arith, get-put v.active_tasks task.action.id id task, idle id))
]
Step-IsIdle starting idle id = idle id
Step-IsIdle stopping idle id = idle id
Step-IsIdle {v} (resizing n) idle id = ground (arith, idle id)
Step-IsIdle clearing idle id = idle id
Step-IsIdle (planning p) idle id = idle id
Step-IsIdle (registering type addr) idle id = idle id

Reach-IsIdle : {w : WorkerPool} → Reach w → IsIdle w
unfolding get
Reach-IsIdle (fresh n) id = refl
Reach-IsIdle (next r step) id = Step-IsIdle step (Reach-IsIdle r) id

-- After any calls, `CancelAction` finds no task and changes nothing, whatever is queued or running: a
-- task is filed as active only after it has run, and taken out before the lock is given back.
cancel_action-false : {w : WorkerPool} (r : Reach w) (id : String) → cancel_action w id ≡ (w, false)
unfolding cancel_action
cancel_action-false {w} r id = rw (Reach-IsIdle r id, cancel_action) refl

get_of_count :
    (resolvers : GoMap ActionResolver) (type : String)
    → 0 < count type (keys resolvers)
    → is_some (get resolvers type) ≡ true
unfolding get count
get_of_count [] type h = absurd (omega arith)
get_of_count ((k, r) ∷ resolvers) type h =
    ground (arith, h, get_of_count resolvers type, eq_iff k type)

count_head : (x : String) (xs : List String) → 0 < count x (x ∷ xs)
unfolding count
count_head x xs = ground (arith, eq_refl x)

sorted_keys-ne-nil :
    (resolvers : GoMap ActionResolver)
    → ltb 0 (length resolvers) ≡ true
    → sort str_ltb (keys resolvers) ≢ []
unfolding count
sorted_keys-ne-nil [] able e = absurd (cc able)
sorted_keys-ne-nil ((k, r) ∷ resolvers) able e =
    let more : 0 < count k (k ∷ keys resolvers) = count_head k (keys resolvers) in
    let kept : count k (sort str_ltb (k ∷ keys resolvers)) ≡ count k (k ∷ keys resolvers) =
      count-sort str_ltb k (k ∷ keys resolvers) in
    let gone : count k (sort str_ltb (k ∷ keys resolvers)) ≡ 0 = ap (count k) e in
    absurd (omega arith)

-- The type of a planned action is registered.
type_registered :
    (p : Planner) (path : String)
    → is_able p ≡ true
    → is_some (get p.resolvers (create_action_for_path p path).type) ≡ true
unfolding create_action_for_path
type_registered p path able = elim (list_cases (sort str_ltb (keys p.resolvers))) [
  | inl e ↦ absurd (sorted_keys-ne-nil p.resolvers able e)
  | inr (type, types, e) ↦
      let kept : count type (sort str_ltb (keys p.resolvers)) ≡ count type (keys p.resolvers) =
        count-sort str_ltb type (keys p.resolvers) in
      let found : count type (sort str_ltb (keys p.resolvers)) ≡ count type (type ∷ types) =
        ap (count type) e in
      let more : 0 < count type (type ∷ types) = count_head type types in
      rw (e, create_action_for_path) (get_of_count p.resolvers type (omega arith))
]

outcome_of_resolved :
    (h : Handlers) (w : WorkerPool) (task : Task) (n : ℕ)
    → task.execute ≡ none
    → resolver_number w task.action.type ≡ some n
    → outcome_of h w task ≡ h.handle n task.action.input
unfolding outcome_of
outcome_of_resolved h w task n own found = ground (arith, own, found)

-- The planner and the workers fit: a task for a planned action that has no function of its own is
-- answered by a resolver of the planner, on the input that names the path, and right after the task
-- this answer is the result under the action's id; the results under other ids are as before.
pub execute_task-create_action_for_path :
    (h : Handlers) (w : WorkerPool) (p : Planner) (path trace_id id : String)
    → is_able p ≡ true
    → let action = create_action_for_path p path in
      let task : Task = record { action = action; execute = none; trace_id = trace_id } in
      (n : ℕ) × (resolver_number (set_planner w p) action.type ≡ some n)
      × (get_result (execute_task h (set_planner w p) task) id ≡ (
          if action.id == id
          then some (result_of action.id (h.handle n action.input))
          else get_result w id))
unfolding execute_task
execute_task-create_action_for_path h w p path trace_id id able =
    let action = create_action_for_path p path in
    let task : Task = record { action = action; execute = none; trace_id = trace_id } in
    elim (Option-cases (get p.resolvers action.type)) [
      | inl missing ↦ absurd (ground (arith, missing, type_registered p path able))
      | inr (r, there) ↦
          let found : resolver_number (set_planner w p) action.type ≡ some r.handler =
            ground (arith, there) in
          (
            r.handler,
            found,
            get-put w.result_cache action.id id
                  (result_of action.id (outcome_of h (set_planner w p) task))
                ∙ ap
                    (λ a.
                      if action.id == id
                      then some (result_of action.id a)
                      else get w.result_cache id)
                    (outcome_of_resolved h (set_planner w p) task r.handler refl found),
          )
    ]
