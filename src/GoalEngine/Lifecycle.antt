-- ===== src/GoalEngine/Lifecycle.antt =====
-- What every sequence of calls keeps of the goals of one name.
use ugem.Prelude.{ℕ, ◌+◌, ◌≤◌, ◌≡◌, refl, String, some, List, count, get}
use ugem.Types.{State, Event}
use ugem.Goal.{Query, Goal, Closures}
use ugem.GoalEngine.{
  GoalEngine, new_goal_engine, add_goal, remove_goal, complete_goal, fail_goal, cancel_goal,
  activate_goal, evaluate, spawn_children, handle_event, advance_clock, start, stop,
}
use ugem.GoalEngine.Filing.{
  IsFiled, add_goal-IsFiled, remove_goal-IsFiled, close_goal-IsFiled, activate_goal-IsFiled, named,
  present, spawn_children-IsFiled,
}
use ugem.GoalEngine.Settling.{NotMade}
use ugem.GoalEngine.Waking.{handle_event-IsFiled}

-- One call of a method that changes the engine. Of the client's functions it is asked that they make
-- no goal under a name that is taken: children come at most once under `id`, and only if no goal of
-- that name is there, and no compensation ever comes under it.
pub data Step (closures : Closures) (id : String) (g : GoalEngine) : GoalEngine → Type 0 where
  adding : (goal : Goal) (now : ℕ) → Step closures id g (add_goal g goal now).0
  removing : (j : String) → Step closures id g (remove_goal g j).0
  completing : (j : String) → Step closures id g (complete_goal g j).0
  failing : (j : String) → Step closures id g (fail_goal g j).0
  cancelling : (j reason : String) (now : ℕ) → Step closures id g (cancel_goal g j reason now).0
  activating : (j : String) → Step closures id g (activate_goal g j).0
  evaluating :
      (goal : Goal) (q : Query) (d : State)
      → goal.condition ≡ some q
      → Step closures id g (evaluate g goal d).0
  spawning :
      (goal : Goal) (d : State)
      → ((f : ℕ)
          → goal.spawn ≡ some f
          → named id (closures.spawns f d) + present (get g.goals id) ≤ 1)
      → Step closures id g (spawn_children closures g goal d).0
  handling :
      (d : State) (order : List String) (event : Event)
      → count id order ≤ 1
      → NotMade closures id
      → Step closures id g (handle_event closures d g order event)
  ticking : Step closures id g (advance_clock g).0
  starting : Step closures id g (start g)
  stopping : Step closures id g (stop g)

pub data Reach (closures : Closures) (id : String) : GoalEngine → Type 0 where
  fresh : Reach closures id new_goal_engine
  next : {g h : GoalEngine} → Reach closures id g → Step closures id g h → Reach closures id h

Step-IsFiled :
    (closures : Closures) (id : String) {g h : GoalEngine}
    → Step closures id g h
    → IsFiled g id
    → IsFiled h id
unfolding complete_goal fail_goal cancel_goal evaluate advance_clock start stop
Step-IsFiled closures id {g} (adding goal now) f = add_goal-IsFiled g id f goal now
Step-IsFiled closures id {g} (removing j) f = remove_goal-IsFiled g id f j
Step-IsFiled closures id {g} (completing j) f =
    close_goal-IsFiled g id f j _ (λ goal. refl) (λ goal. refl)
Step-IsFiled closures id {g} (failing j) f =
    close_goal-IsFiled g id f j _ (λ goal. refl) (λ goal. refl)
Step-IsFiled closures id {g} (cancelling j reason now) f =
    close_goal-IsFiled g id f j _ (λ goal. refl) (λ goal. refl)
Step-IsFiled closures id {g} (activating j) f = activate_goal-IsFiled g id f j
Step-IsFiled closures id {g} (evaluating goal q d e) f =
    rw e (record { actives = f.actives; pendings = f.pendings })
Step-IsFiled closures id {g} (spawning goal d once) f =
    spawn_children-IsFiled closures g goal d id f once
Step-IsFiled closures id {g} (handling d order event once other) f =
    handle_event-IsFiled closures d g order event id once other f
Step-IsFiled closures id ticking f = record { actives = f.actives; pendings = f.pendings }
Step-IsFiled closures id starting f = record { actives = f.actives; pendings = f.pendings }
Step-IsFiled closures id stopping f = record { actives = f.actives; pendings = f.pendings }

-- After any calls on a new engine an id stands once in the active list if its goal is active, once in
-- the pending list if it is pending, and nowhere else. The conditions are those of the steps: a goal
-- under the id is spawned at most once and only while the id is not taken, an event is handled only if
-- the client's functions never make a compensation under the id and the visit meets the id at most
-- once, and only goals with a condition are evaluated.
pub Reach-IsFiled :
    (closures : Closures) (id : String) {g : GoalEngine} → Reach closures id g → IsFiled g id
unfolding count get
Reach-IsFiled closures id fresh = record { actives = refl; pendings = refl }
Reach-IsFiled closures id (next r step) =
    Step-IsFiled closures id step (Reach-IsFiled closures id r)
