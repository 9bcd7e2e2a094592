-- ===== src/Kernel/Plans.antt =====
-- The plans that run at one time, whatever the order in which the passes of the loop and the plans
-- take their steps.
use ugem.Prelude.{
  ℕ, ◌+◌, ◌≤◌, ◌<◌, ◌≡◌, refl, String, true, false, List, [], ◌∷◌, ltb, contains, count,
  count-remove_first, remove_first, length, eq_iff, arith, list_cases, Bool-cases, inl, inr, ◌⊎◌,
}
use ugem.Goal.{Goal, Closures}
use ugem.GoalEngine.{evaluate}
use ugem.Scheduler.{SchedulerMode}
use ugem.Planner.{Plan, Planner}
use ugem.Kernel.{Runtime}
use ugem.Kernel.Processing.{
  Execution, with_engine, is_overdue, new_execution, fail_overdue, complete_and_spawn, plan_for,
  start_plan, plan_goal, compute_missing_conditions, process_goal, release_place, forget_plan,
}

-- One step: a goal of a pass, or one of the two steps at the end of a plan. The runtime and the
-- planner may change in between in any way.
pub data Step (x : Execution) : Execution → Type 0 where
  processing : (closures : Closures) (now : ℕ) (g : Goal) → Step x (process_goal closures now x g)
  releasing : (id : String) → contains id x.running ≡ true → Step x (release_place x id)
  forgetting : (id : String) → contains id x.leaving ≡ true → Step x (forget_plan x id)
  changing : (r : Runtime) (p : Planner) → Step x (record x { runtime = r; planner = p })

pub data Reach : Execution → Type 0 where
  fresh : (mode : SchedulerMode) → Reach (new_execution mode)
  next : {x y : Execution} → Reach x → Step x y → Reach y

pub record IsOrderly (x : Execution) : Type 0 where
  pub held : x.plan_sem ≡ length x.running
  pub room : x.plan_sem ≤ 100
  pub marked : (id : String) → count id x.active_plans ≡ count id x.running + count id x.leaving
  pub once : (id : String) → count id x.active_plans ≤ 1

-- the part of an execution that the plans are about
abbrev Untouched : Execution → Execution → Type 0
Untouched x y =
    (y.plan_sem ≡ x.plan_sem)
    × (y.running ≡ x.running)
    × (y.leaving ≡ x.leaving)
    × (y.active_plans ≡ x.active_plans)

Untouched-IsOrderly : (x y : Execution) → Untouched x y → IsOrderly x → IsOrderly y
Untouched-IsOrderly x y (a, b, c, d) o = record {
  held = ground (arith, a, b, o.held);
  room = ground (arith, a, o.room);
  marked = λ id. ground (arith, o.marked id, b, c, d);
  once = λ id. ground (arith, o.once id, d);
}

count_zero : (id : String) (xs : List String) → contains id xs ≡ false → count id xs ≡ 0
unfolding contains count
count_zero id [] h = refl
count_zero id (x ∷ xs) h = ground (arith, h, count_zero id xs)

start_plan-IsOrderly :
    (x : Execution) (g : Goal) (plan : Plan)
    → contains g.id x.active_plans ≡ false
    → IsOrderly x
    → IsOrderly (start_plan x g plan)
unfolding start_plan count
start_plan-IsOrderly x g plan fresh_one o = elim (list_cases plan.actions) [
  | inl e ↦ rw (e, start_plan) o
  | inr (a, actions, e) ↦ elim (Bool-cases (ltb x.plan_sem 100)) [
    | inl has_room ↦
        rw (e, start_plan, has_room)
          (record {
            held = ground (arith, o.held);
            room = ground (arith, has_room);
            marked = λ id. ground (arith, o.marked id);
            once = λ id.
                ground (arith, o.once id, count_zero g.id x.active_plans fresh_one, eq_iff g.id id);
          })
    | inr full ↦ rw (e, start_plan, full) o
  ]
]

plan_goal-IsOrderly : (x : Execution) (g : Goal) → IsOrderly x → IsOrderly (plan_goal x g)
unfolding plan_goal
plan_goal-IsOrderly x g o = elim (Bool-cases (contains g.id x.active_plans)) [
  | inl planned ↦ rw (planned, plan_goal) o
  | inr unplanned ↦ elim (list_cases (compute_missing_conditions x.runtime g)) [
    | inl e ↦ rw (unplanned, e, plan_goal) o
    | inr (path, paths, e) ↦
        let (p, plan) = plan_for x.planner g (path ∷ paths) in
        rw (unplanned, e, plan_goal)
          (start_plan-IsOrderly (record x { planner = p }) g plan unplanned
            (Untouched-IsOrderly x (record x { planner = p }) (refl, refl, refl, refl) o))
  ]
]

process_goal_cases :
    (closures : Closures) (now : ℕ) (x : Execution) (g : Goal)
    → Untouched x (process_goal closures now x g)
      ⊎ ((y : Execution) × Untouched x y × (process_goal closures now x g ≡ plan_goal y g))
unfolding process_goal fail_overdue complete_and_spawn
process_goal_cases closures now x g =
    let evaluated = evaluate x.runtime.goal_engine g x.runtime.state_manager.data_map in
    elim (Bool-cases (is_overdue now g)) [
      | inl late ↦ rw (late, process_goal) (inl (refl, refl, refl, refl))
      | inr timely ↦ elim (Bool-cases evaluated.1) [
        | inl met ↦ rw (timely, met, process_goal) (inl (refl, refl, refl, refl))
        | inr unmet ↦
            rw (timely, unmet, process_goal)
              (inr (with_engine x evaluated.0, (refl, refl, refl, refl), refl))
      ]
    ]

process_goal-IsOrderly :
    (closures : Closures) (now : ℕ) (x : Execution) (g : Goal)
    → IsOrderly x
    → IsOrderly (process_goal closures now x g)
process_goal-IsOrderly closures now x g o = elim (process_goal_cases closures now x g) [
  | inl same ↦ Untouched-IsOrderly x (process_goal closures now x g) same o
  | inr (y, same, e) ↦ rw e (plan_goal-IsOrderly y g (Untouched-IsOrderly x y same o))
]

length-remove_first :
    (id : String) (xs : List String)
    → contains id xs ≡ true
    → length (remove_first id xs) + 1 ≡ length xs
unfolding contains remove_first
length-remove_first id [] h = absurd (cc h)
length-remove_first id (x ∷ xs) h =
    ground (arith, h, length-remove_first id xs, eq_iff x id, eq_iff id x)

count_pos : (id : String) (xs : List String) → contains id xs ≡ true → 0 < count id xs
unfolding contains count
count_pos id [] h = absurd (cc h)
count_pos id (x ∷ xs) h = ground (arith, h, count_pos id xs)

release_place-IsOrderly :
    (x : Execution) (id : String)
    → contains id x.running ≡ true
    → IsOrderly x
    → IsOrderly (release_place x id)
unfolding release_place count
release_place-IsOrderly x id h o = record {
  held = ground (arith, o.held, length-remove_first id x.running h);
  room = ground (arith, o.room);
  marked = λ j.
      ground (
        arith,
        o.marked j,
        count-remove_first id j x.running,
        eq_iff id j,
        count_pos id x.running h,
      );
  once = o.once;
}

forget_plan-IsOrderly :
    (x : Execution) (id : String)
    → contains id x.leaving ≡ true
    → IsOrderly x
    → IsOrderly (forget_plan x id)
unfolding forget_plan
forget_plan-IsOrderly x id h o = record {
  held = o.held;
  room = o.room;
  marked = λ j. ground (
    arith,
    o.marked j,
    count-remove_first id j x.leaving,
    count-remove_first id j x.active_plans,
    eq_iff id j,
    count_pos id x.leaving h,
  );
  once = λ j. ground (arith, o.once j, count-remove_first id j x.active_plans);
}

-- In whatever order the passes of the loop and the plans take their steps: the semaphore counts the
-- plans that run, these are at most 100, and no goal has two plans at one time, since a goal is
-- marked as long as its plan runs.
pub Reach-IsOrderly : {x : Execution} → Reach x → IsOrderly x
unfolding count
Reach-IsOrderly (fresh mode) = record {
  held = refl;
  room = omega arith;
  marked = λ id. refl;
  once = λ id. omega arith;
}
Reach-IsOrderly (next {x = x} r (processing closures now g)) =
    process_goal-IsOrderly closures now x g (Reach-IsOrderly r)
Reach-IsOrderly (next {x = x} r (releasing id h)) =
    release_place-IsOrderly x id h (Reach-IsOrderly r)
Reach-IsOrderly (next {x = x} r (forgetting id h)) =
    forget_plan-IsOrderly x id h (Reach-IsOrderly r)
Reach-IsOrderly (next {x = x} r (changing runtime p)) =
    Untouched-IsOrderly x (record x { runtime = runtime; planner = p }) (refl, refl, refl, refl)
      (Reach-IsOrderly r)
