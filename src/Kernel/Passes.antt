-- ===== src/Kernel/Passes.antt =====
-- What a pass of the execution loop does to the goals.
use ugem.Prelude.{
  ℕ, ◌≤◌, ◌≡◌, refl, sym, ap, ◌∙◌, subst, String, true, false, Option, none, some, List, [], ◌∷◌,
  map, contains, count, get, get-put, eq_iff, eq_refl, arith, list_cases, Bool-cases, Option-cases,
  inl, inr,
}
use ugem.Types.{State}
use ugem.Goal.{GoalState, complete, failed, Query, Goal, Closures, holds}
use ugem.GoalEngine.{
  GoalEngine, close_goal, fail_goal, complete_goal, evaluate, spawn_children, add_children,
  add_pending, child_of, remove_from_slices, list_active_goals,
}
use ugem.GoalEngine.Filing.{
  IsFiled, active_slot, pending_slot, in_active, in_pending, named-children, close_goal-IsFiled,
  present, named, spawn_children-IsFiled,
}
use ugem.Planner.{Plan}
use ugem.GoalEngine.Dependencies.{track-holds}
use ugem.Kernel.Processing.{
  Execution, with_engine, is_overdue, fail_overdue, complete_and_spawn, plan_for, start_plan,
  plan_goal, compute_missing_conditions, process_goal, process_each, process_goals, enqueue_all,
}

-- The client's functions spawn no goal of this name.
abbrev pub NotSpawned : Closures → String → Type 0
NotSpawned closures id = (f : ℕ) (d : State) → named id (closures.spawns f d) ≡ 0

abbrev pub engine : Execution → GoalEngine
engine x = x.runtime.goal_engine

start_plan-engine :
    (x : Execution) (g : Goal) (plan : Plan) → engine (start_plan x g plan) ≡ engine x
unfolding start_plan
start_plan-engine x g plan = ground arith

pub plan_goal-engine : (x : Execution) (g : Goal) → engine (plan_goal x g) ≡ engine x
unfolding plan_goal
plan_goal-engine x g = elim (Bool-cases (contains g.id x.active_plans)) [
  | inl planned ↦ rw (planned, plan_goal) refl
  | inr unplanned ↦ elim (list_cases (compute_missing_conditions x.runtime g)) [
    | inl e ↦ rw (unplanned, e, plan_goal) refl
    | inr (path, paths, e) ↦
        let (p, plan) = plan_for x.planner g (path ∷ paths) in
        rw (unplanned, e, plan_goal) (start_plan-engine (record x { planner = p }) g plan)
  ]
]

present-le-one {ℓ} : {A : Type ℓ} → (o : Option A) → present o ≤ 1
present-le-one none = omega arith
present-le-one (some a) = omega arith

evaluate-IsFiled :
    (ge : GoalEngine) (g : Goal) (d : State) (id : String)
    → IsFiled ge id
    → IsFiled (evaluate ge g d).0 id
unfolding evaluate
evaluate-IsFiled ge g d id f = elim (Option-cases g.condition) [
  | inl e ↦ rw (e, evaluate) f
  | inr (q, e) ↦ rw (e, evaluate) (record { actives = f.actives; pendings = f.pendings })
]

process_goal-IsFiled :
    (closures : Closures) (now : ℕ) (x : Execution) (g : Goal) (id : String)
    → NotSpawned closures id
    → IsFiled (engine x) id
    → IsFiled (engine (process_goal closures now x g)) id
unfolding process_goal fail_overdue complete_and_spawn fail_goal complete_goal
process_goal-IsFiled closures now x g id other f =
    let d = x.runtime.state_manager.data_map in
    let evaluated = evaluate (engine x) g d in
    let f' = evaluate-IsFiled (engine x) g d id f in
    elim (Bool-cases (is_overdue now g)) [
      | inl late ↦
          rw (late, process_goal)
            (close_goal-IsFiled (engine x) id f g.id _ (λ goal. refl) (λ goal. refl))
      | inr timely ↦ elim (Bool-cases evaluated.1) [
        | inl met ↦
            let ge = (complete_goal evaluated.0 g.id).0 in
            let done = close_goal-IsFiled evaluated.0 id f' g.id _ (λ goal. refl) (λ goal. refl) in
            rw (timely, met, process_goal)
              (spawn_children-IsFiled closures ge g d id done
                (λ n e. omega (arith, other n d, present-le-one (get ge.goals id))))
        | inr unmet ↦
            rw (timely, unmet, process_goal)
              (subst (λ ge. IsFiled ge id) (sym (plan_goal-engine (with_engine x evaluated.0) g))
                f')
      ]
    ]

pub process_each-IsFiled :
    (closures : Closures) (now : ℕ) (x : Execution) (goals : List Goal) (id : String)
    → NotSpawned closures id
    → IsFiled (engine x) id
    → IsFiled (engine (process_each closures now x goals)) id
unfolding process_each
process_each-IsFiled closures now x [] id other f = f
process_each-IsFiled closures now x (g ∷ goals) id other f =
    process_each-IsFiled closures now (process_goal closures now x g) goals id other
      (process_goal-IsFiled closures now x g id other f)

-- A pass of the execution loop keeps a goal filed that the client's functions do not spawn again: it
-- stands once in the active list if it is active, once in the pending list if it is pending, and
-- nowhere else.
process_goals-IsFiled :
    (closures : Closures) (now : ℕ) (x : Execution) (id : String)
    → NotSpawned closures id
    → IsFiled x.runtime.goal_engine id
    → IsFiled (process_goals closures now x).runtime.goal_engine id
unfolding process_goals
process_goals-IsFiled closures now x id other f =
    process_each-IsFiled closures now x (list_active_goals (engine x)) id other f

-- Where a goal is after it is closed.
abbrev pub ClosedAs : GoalState → Goal → GoalEngine → Type 0
ClosedAs state goal ge =
    (get ge.goals goal.id ≡ some (record goal { state = state }))
    × (count goal.id ge.active_goals ≡ 0)
    × (count goal.id ge.pending_goals ≡ 0)

close_goal-ClosedAs :
    (ge : GoalEngine) (goal : Goal) (state : GoalState)
    → get ge.goals goal.id ≡ some goal
    → active_slot state ≡ 0
    → pending_slot state ≡ 0
    → IsFiled ge goal.id
    → ClosedAs state goal (close_goal ge goal.id (λ h. record h { state = state })).0
unfolding remove_from_slices
close_goal-ClosedAs ge goal state there a p f =
    let close : Goal → Goal = λ h. record h { state = state } in
    let found : get (close_goal ge goal.id close).0.goals goal.id ≡ some (close goal) =
      rw (there, close_goal)
        (get-put ge.goals goal.id goal.id (close goal) ∙ rw (eq_refl goal.id) refl) in
    let filed = close_goal-IsFiled ge goal.id f goal.id close (λ h. a) (λ h. p) in
    (found, filed.actives ∙ ap in_active found ∙ a, filed.pendings ∙ ap in_pending found ∙ p)

-- A goal whose deadline or whose time is over, counted from its creation and from its start, is failed
-- and leaves the active goals, though its condition may hold; no plan of it is started.
pub process_goal_overdue :
    (closures : Closures) (now : ℕ) (x : Execution) (g : Goal)
    → is_overdue now g ≡ true
    → get x.runtime.goal_engine.goals g.id ≡ some g
    → IsFiled x.runtime.goal_engine g.id
    → let y = process_goal closures now x g in
      ClosedAs failed g y.runtime.goal_engine × (y.started ≡ x.started)
unfolding process_goal fail_overdue fail_goal
process_goal_overdue closures now x g late there f =
    rw (late, process_goal) (close_goal-ClosedAs (engine x) g failed there refl refl f, refl)

get-add_children :
    (ge : GoalEngine) (id : String) (children : List Goal)
    → named id children ≡ 0
    → get (add_children ge children).goals id ≡ get ge.goals id
unfolding add_children add_pending count
get-add_children ge id [] h = refl
get-add_children ge id (child ∷ children) h =
    get-add_children (add_pending ge child) id children (omega arith)
    ∙ ground (arith, h, get-put ge.goals child.id id child, eq_iff child.id id)

pub get-spawn_children :
    (closures : Closures) (ge : GoalEngine) (g : Goal) (d : State) (id : String)
    → NotSpawned closures id
    → get (spawn_children closures ge g d).0.goals id ≡ get ge.goals id
unfolding spawn_children
get-spawn_children closures ge g d id other = elim (Option-cases g.spawn) [
  | inl e ↦ rw (e, spawn_children) refl
  | inr (n, e) ↦
      rw (e, spawn_children)
        (get-add_children ge id (map (child_of ge g) (closures.spawns n d))
          (named-children ge g id (closures.spawns n d) ∙ other n d))
]

spawn_children-ClosedAs :
    (closures : Closures) (ge : GoalEngine) (g : Goal) (d : State)
    → NotSpawned closures g.id
    → IsFiled ge g.id
    → ClosedAs complete g ge
    → ClosedAs complete g (spawn_children closures ge g d).0
spawn_children-ClosedAs closures ge g d other f (found, a, p) =
    let found' = get-spawn_children closures ge g d g.id other ∙ found in
    let filed =
      spawn_children-IsFiled closures ge g d g.id f
        (λ n e. omega (arith, other n d, present-le-one (get ge.goals g.id))) in
    (found', filed.actives ∙ ap in_active found', filed.pendings ∙ ap in_pending found')

pub evaluate_lem :
    (ge : GoalEngine) (g : Goal) (d : State) (q : Query)
    → g.condition ≡ some q
    → ((evaluate ge g d).1 ≡ holds q d) × ((evaluate ge g d).0.goals ≡ ge.goals)
unfolding evaluate
evaluate_lem ge g d q e = rw (e, evaluate) (track-holds q d, refl)

-- A goal in time whose condition holds on the state is complete after the body of the loop, and leaves the
-- active goals; the goals that it spawns are queued, in their order. The client's functions are not
-- to spawn it again.
pub process_goal_complete :
    (closures : Closures) (now : ℕ) (x : Execution) (g : Goal) (q : Query)
    → is_overdue now g ≡ false
    → g.condition ≡ some q
    → holds q x.runtime.state_manager.data_map ≡ true
    → NotSpawned closures g.id
    → get x.runtime.goal_engine.goals g.id ≡ some g
    → IsFiled x.runtime.goal_engine g.id
    → let y = process_goal closures now x g in
      let spawned =
        spawn_children closures
          (complete_goal
            (evaluate x.runtime.goal_engine g x.runtime.state_manager.data_map).0
            g.id).0
          g
          x.runtime.state_manager.data_map in
      ClosedAs complete g y.runtime.goal_engine
      × (y.runtime.sched ≡ enqueue_all x.runtime.sched spawned.1 now)
unfolding process_goal complete_and_spawn complete_goal
process_goal_complete closures now x g q timely condition met other there f =
    let d = x.runtime.state_manager.data_map in
    let ge = (evaluate (engine x) g d).0 in
    let (held, same) = evaluate_lem (engine x) g d q condition in
    let f' = evaluate-IsFiled (engine x) g d g.id f in
    let done =
      close_goal-IsFiled ge g.id f' g.id (λ h. record h { state = complete }) (λ h. refl)
        (λ h. refl) in
    let closed =
      close_goal-ClosedAs ge g complete (ap (λ goals. get goals g.id) same ∙ there) refl refl f' in
    rw (timely, held ∙ met, process_goal)
      (spawn_children-ClosedAs closures (complete_goal ge g.id).0 g d other done closed, refl)
