-- ===== src/Kernel/Completion.antt =====
-- A goal whose condition holds in a pass over all active goals, and the children that a pass queues.
use ugem.Prelude.{
  ℕ, ◌+◌, ◌≡◌, refl, sym, ap, ◌∙◌, String, Bool, true, false, not, ◌&&◌, Option, none, some, List,
  [], ◌∷◌, ◌++◌, ◌==◌, if◌then◌else◌, get, count, contains, arith, All, Bool-cases, Option-cases,
  list_cases, inl, inr,
}
use ugem.Types.{State}
use ugem.Goal.{complete, Query, Goal, Closures, holds}
use ugem.GoalEngine.{GoalEngine, evaluate, spawn_children, complete_goal}
use ugem.GoalEngine.Filing.{IsFiled, named, named-children}
use ugem.Planner.{Plan}
use ugem.Scheduler.{Scheduler, enqueue}
use ugem.Scheduler.Counts.{in_queue, in_queue-enqueue}
use ugem.StateManager.{StateManager}
use ugem.Kernel.{Runtime}
use ugem.Kernel.Processing.{
  Execution, with_engine, is_overdue, fail_overdue, complete_and_spawn, plan_for, start_plan,
  plan_goal, compute_missing_conditions, process_goal, process_each, enqueue_all,
}
use ugem.Kernel.Passes.{
  NotSpawned, engine, process_each-IsFiled, process_goal_complete, evaluate_lem,
}
use ugem.Kernel.Overdue.{process_each-get, process_each-append}

-- how many goals of the name a goal's function spawns
abbrev spawned_by : Closures → State → String → Goal → ℕ
spawned_by closures d id g = elim g.spawn [ none ↦ 0 | some f ↦ named id (closures.spawns f d) ]

abbrev is_met : Option Query → State → Bool
is_met none d = false
is_met (some q) d = holds q d

-- whether a goal is completed by a pass
abbrev is_completed : ℕ → State → Goal → Bool
is_completed now d g = not (is_overdue now g) && is_met g.condition d

-- how many goals of the name are spawned by those of the goals that the pass completes
unfoldable pub spawned_in : Closures → ℕ → State → String → List Goal → ℕ
spawned_in closures now d id [] = 0
spawned_in closures now d id (g ∷ goals) =
    (if is_completed now d g then spawned_by closures d id g else 0)
    + spawned_in closures now d id goals

in_queue-enqueue_all :
    (s : Scheduler) (children : List Goal) (now : ℕ) (id : String)
    → in_queue id (enqueue_all s children now).priority_queue
      ≡ in_queue id s.priority_queue + named id children
unfolding enqueue_all count
in_queue-enqueue_all s [] now id = omega arith
in_queue-enqueue_all s (child ∷ children) now id = omega (
  arith,
  in_queue-enqueue_all (enqueue s child now) children now id,
  in_queue-enqueue s child now id,
)

named-spawn_children :
    (closures : Closures) (ge : GoalEngine) (g : Goal) (d : State) (id : String)
    → named id (spawn_children closures ge g d).1 ≡ spawned_by closures d id g
unfolding spawn_children count
named-spawn_children closures ge g d id = elim (Option-cases g.spawn) [
  | inl e ↦ rw (e, spawn_children) refl
  | inr (f, e) ↦ rw (e, spawn_children) (named-children ge g id (closures.spawns f d))
]

start_plan-runtime :
    (x : Execution) (g : Goal) (plan : Plan) → (start_plan x g plan).runtime ≡ x.runtime
unfolding start_plan
start_plan-runtime x g plan = ground arith

plan_goal-runtime : (x : Execution) (g : Goal) → (plan_goal x g).runtime ≡ x.runtime
unfolding plan_goal
plan_goal-runtime x g = elim (Bool-cases (contains g.id x.active_plans)) [
  | inl planned ↦ rw (planned, plan_goal) refl
  | inr unplanned ↦ elim (list_cases (compute_missing_conditions x.runtime g)) [
    | inl e ↦ rw (unplanned, e, plan_goal) refl
    | inr (path, paths, e) ↦
        let (p, plan) = plan_for x.planner g (path ∷ paths) in
        rw (unplanned, e, plan_goal) (start_plan-runtime (record x { planner = p }) g plan)
  ]
]

met_of :
    (now : ℕ) (g : Goal) (q : Query) (d : State)
    → is_overdue now g ≡ false
    → g.condition ≡ some q
    → holds q d ≡ is_completed now d g
met_of now g q d timely e = rw (timely, e) refl

evaluate-met :
    (ge : GoalEngine) (now : ℕ) (g : Goal) (d : State)
    → is_overdue now g ≡ false
    → (evaluate ge g d).1 ≡ is_completed now d g
unfolding evaluate
evaluate-met ge now g d timely = elim (Option-cases g.condition) [
  | inl e ↦ rw (timely, e, evaluate) refl
  | inr (q, e) ↦ (evaluate_lem ge g d q e).0 ∙ met_of now g q d timely e
]

-- The body of the loop keeps the state, and queues the children of a goal that it completes.
process_goal-queue :
    (closures : Closures) (now : ℕ) (x : Execution) (g : Goal) (id : String)
    → let y = process_goal closures now x g in
      let d = x.runtime.state_manager.data_map in
      (y.runtime.state_manager ≡ x.runtime.state_manager)
      × (in_queue id y.runtime.sched.priority_queue
          ≡ in_queue id x.runtime.sched.priority_queue
            + (if is_completed now d g then spawned_by closures d id g else 0))
unfolding process_goal fail_overdue complete_and_spawn
process_goal-queue closures now x g id =
    let d = x.runtime.state_manager.data_map in
    let evaluated = evaluate (engine x) g d in
    elim (Bool-cases (is_overdue now g)) [
      | inl late ↦ rw (late, process_goal) (refl, omega arith)
      | inr timely ↦
          let met = evaluate-met (engine x) now g d timely in
          elim (Bool-cases evaluated.1) [
            | inl done ↦
                let ge = (complete_goal evaluated.0 g.id).0 in
                let queued =
                  in_queue-enqueue_all x.runtime.sched (spawn_children closures ge g d).1 now id in
                rw (done, process_goal, sym met ∙ done, timely)
                  (
                    refl,
                    queued
                        ∙ ap (λ n. in_queue id x.runtime.sched.priority_queue + n)
                            (named-spawn_children closures ge g d id),
                  )
            | inr unmet ↦
                let same = plan_goal-runtime (with_engine x evaluated.0) g in
                rw (unmet, process_goal, sym met ∙ unmet, timely)
                  (
                    ap (λ (r : Runtime). r.state_manager) same,
                    ap (λ (r : Runtime). in_queue id r.sched.priority_queue) same ∙ omega arith,
                  )
          ]
    ]

process_each-queue :
    (closures : Closures) (now : ℕ) (x : Execution) (goals : List Goal) (id : String)
    → let y = process_each closures now x goals in
      (y.runtime.state_manager ≡ x.runtime.state_manager)
      × (in_queue id y.runtime.sched.priority_queue
          ≡ in_queue id x.runtime.sched.priority_queue
            + spawned_in closures now x.runtime.state_manager.data_map id goals)
unfolding process_each spawned_in
process_each-queue closures now x [] id = (refl, omega arith)
process_each-queue closures now x (g ∷ goals) id =
    let (kept, one) = process_goal-queue closures now x g id in
    let (kept', rest) = process_each-queue closures now (process_goal closures now x g) goals id in
    let same = ap (λ (m : StateManager). spawned_in closures now m.data_map id goals) kept in
    (kept' ∙ kept, omega (arith, one, rest, same))

-- A goal that is in time and whose condition holds on the state is complete at the end of the pass,
-- wherever it stands among the active goals and whatever becomes of the others; and the pass queues
-- exactly the children of the goals that it completes: the queue has as many items more of each goal
-- as goals of that name are spawned by goals of the pass that are in time and whose conditions hold.
-- The goal is stored and filed, the list has it once, and the client's functions do not spawn it
-- again.
pub process_each_complete :
    (closures : Closures) (now : ℕ) (x : Execution) (before after : List Goal) (g : Goal)
    (q : Query) (child : String)
    → is_overdue now g ≡ false
    → g.condition ≡ some q
    → holds q x.runtime.state_manager.data_map ≡ true
    → get x.runtime.goal_engine.goals g.id ≡ some g
    → IsFiled x.runtime.goal_engine g.id
    → NotSpawned closures g.id
    → All (λ (h : Goal). (h.id == g.id) ≡ false) before
    → All (λ (h : Goal). (h.id == g.id) ≡ false) after
    → let y = process_each closures now x (before ++ g ∷ after) in
      (get y.runtime.goal_engine.goals g.id ≡ some (record g { state = complete }))
      × (in_queue child y.runtime.sched.priority_queue
          ≡ in_queue child x.runtime.sched.priority_queue
            + spawned_in closures now x.runtime.state_manager.data_map child (before ++ g ∷ after))
unfolding process_each
process_each_complete closures now x before after g q child timely condition met there filed
      unspawned others others' =
    let y = process_each closures now x before in
    let still = process_each-get closures now x before g.id unspawned others ∙ there in
    let filed' = process_each-IsFiled closures now x before g.id unspawned filed in
    let (state, _) = process_each-queue closures now x before child in
    let met' = ap (λ (m : StateManager). holds q m.data_map) state ∙ met in
    (
      ap (λ z. get (engine z).goals g.id) (process_each-append closures now x before (g ∷ after))
          ∙ process_each-get closures now (process_goal closures now y g) after g.id unspawned
              others'
          ∙ (process_goal_complete closures now y g q timely condition met' unspawned still
              filed').0.0,
      (process_each-queue closures now x (before ++ g ∷ after) child).1,
    )
