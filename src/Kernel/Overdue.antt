-- ===== src/Kernel/Overdue.antt =====
-- An overdue goal in a pass over all active goals.
use ugem.Prelude.{
  ℕ, ◌≡◌, refl, ap, ◌∙◌, String, true, false, some, List, [], ◌∷◌, ◌++◌, ◌==◌, get, get-put, All,
  Bool-cases, Option-cases, inl, inr,
}
use ugem.Types.{State}
use ugem.Goal.{failed, complete, GoalState, Goal, Closures}
use ugem.GoalEngine.{GoalEngine, close_goal, fail_goal, complete_goal, evaluate, remove_from_slices}
use ugem.GoalEngine.Filing.{IsFiled}
use ugem.Kernel.Processing.{
  Execution, with_engine, is_overdue, fail_overdue, complete_and_spawn, process_goal, process_each,
}
use ugem.Kernel.Passes.{
  NotSpawned, engine, plan_goal-engine, process_each-IsFiled, process_goal_overdue,
  get-spawn_children,
}

close_goal-get :
    (ge : GoalEngine) (j id : String) (state : GoalState)
    → (j == id) ≡ false
    → get (close_goal ge j (λ h. record h { state = state })).0.goals id ≡ get ge.goals id
unfolding remove_from_slices
close_goal-get ge j id state other = elim (Option-cases (get ge.goals j)) [
  | inl missing ↦ rw (missing, close_goal) refl
  | inr (goal, there) ↦
      rw (there, close_goal) (get-put ge.goals j id (record goal { state = state }) ∙ rw other refl)
]

goals-evaluate : (ge : GoalEngine) (g : Goal) (d : State) → (evaluate ge g d).0.goals ≡ ge.goals
unfolding evaluate
goals-evaluate ge g d = elim (Option-cases g.condition) [
  | inl e ↦ rw (e, evaluate) refl
  | inr (q, e) ↦ rw (e, evaluate) refl
]

-- A pass over one goal leaves the other goals as they are.
process_goal-get :
    (closures : Closures) (now : ℕ) (x : Execution) (g : Goal) (id : String)
    → NotSpawned closures id
    → (g.id == id) ≡ false
    → get (engine (process_goal closures now x g)).goals id ≡ get (engine x).goals id
unfolding process_goal fail_overdue complete_and_spawn fail_goal complete_goal
process_goal-get closures now x g id unspawned other =
    let d = x.runtime.state_manager.data_map in
    let evaluated = evaluate (engine x) g d in
    let same = ap (λ goals. get goals id) (goals-evaluate (engine x) g d) in
    elim (Bool-cases (is_overdue now g)) [
      | inl late ↦ rw (late, process_goal) (close_goal-get (engine x) g.id id failed other)
      | inr timely ↦ elim (Bool-cases evaluated.1) [
        | inl met ↦
            rw (timely, met, process_goal)
              (get-spawn_children closures (complete_goal evaluated.0 g.id).0 g d id unspawned
                ∙ close_goal-get evaluated.0 g.id id complete other
                ∙ same)
        | inr unmet ↦
            rw (timely, unmet, process_goal)
              (ap (λ ge. get ge.goals id) (plan_goal-engine (with_engine x evaluated.0) g) ∙ same)
      ]
    ]

pub process_each-get :
    (closures : Closures) (now : ℕ) (x : Execution) (goals : List Goal) (id : String)
    → NotSpawned closures id
    → All (λ (g : Goal). (g.id == id) ≡ false) goals
    → get (engine (process_each closures now x goals)).goals id ≡ get (engine x).goals id
unfolding process_each
process_each-get closures now x [] id unspawned others = refl
process_each-get closures now x (g ∷ goals) id unspawned others =
    process_each-get closures now (process_goal closures now x g) goals id unspawned others.1
    ∙ process_goal-get closures now x g id unspawned others.0

pub process_each-append :
    (closures : Closures) (now : ℕ) (x : Execution) (before after : List Goal)
    → process_each closures now x (before ++ after)
      ≡ process_each closures now (process_each closures now x before) after
unfolding process_each
process_each-append closures now x [] after = refl
process_each-append closures now x (g ∷ before) after =
    process_each-append closures now (process_goal closures now x g) before after

-- A goal whose deadline or whose time is over is failed at the end of the pass, wherever it stands
-- among the active goals and whatever becomes of the others: the list has it once, and the client's
-- functions do not spawn it again.
pub process_each_overdue :
    (closures : Closures) (now : ℕ) (x : Execution) (before after : List Goal) (g : Goal)
    → is_overdue now g ≡ true
    → get x.runtime.goal_engine.goals g.id ≡ some g
    → IsFiled x.runtime.goal_engine g.id
    → NotSpawned closures g.id
    → All (λ (h : Goal). (h.id == g.id) ≡ false) before
    → All (λ (h : Goal). (h.id == g.id) ≡ false) after
    → get (process_each closures now x (before ++ g ∷ after)).runtime.goal_engine.goals g.id
      ≡ some (record g { state = failed })
unfolding process_each
process_each_overdue closures now x before after g late there filed unspawned others others' =
    let y = process_each closures now x before in
    let still = process_each-get closures now x before g.id unspawned others ∙ there in
    let filed' = process_each-IsFiled closures now x before g.id unspawned filed in
    ap (λ z. get (engine z).goals g.id) (process_each-append closures now x before (g ∷ after))
    ∙ process_each-get closures now (process_goal closures now y g) after g.id unspawned others'
    ∙ (process_goal_overdue closures now y g late still filed').0.0
