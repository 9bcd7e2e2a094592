-- ===== src/GoalEngine.antt =====
-- runtime/goal_engine.go: the goals, their states, and the lists of the active and the pending ones.
-- The order in which Go visits the map of goals is an argument of `handle_event`.
pub mod Filing
pub mod Settling
pub mod Waking
pub mod Lifecycle
pub mod Dependencies
mod Samples
use ugem.Prelude.{
  ℕ, ◌+◌, ◌≡◌, String, Bool, true, false, not, ◌&&◌, ◌||◌, Option, none, some, List, [], ◌∷◌, ◌++◌,
  map, GoMap, ◌==◌, if◌then◌else◌, u64, ltb, get, put, delete, contains, remove_first, is_some,
}
use ugem.Prelude.Int.{ℤ, ltb_ℤ, eqb_ℤ}
use ugem.Prelude.Sort.{sort}
use ugem.Prelude.StringOrder.{str_ltb}
use ugem.Types.{Error, goal_not_found, invalid_goal, goal_already_exists, State, Event}
use ugem.Goal.{
  GoalState, pending, active, complete, failed, cancelled, compensating, Query, Goal, no_goal,
  Closures, holds, track,
}

pub record GoalEngine : Type 0 where
  pub goals : GoMap Goal
  pub active_goals : List String
  pub pending_goals : List String
  pub clock : ℕ  -- uint64
  pub goal_dependencies : GoMap (List String)
  pub running : Bool

abbrev pub new_goal_engine : GoalEngine
new_goal_engine = record {
  goals = [];
  active_goals = [];
  pending_goals = [];
  clock = 0;
  goal_dependencies = [];
  running = false;
}

-- `g.goals[id]`, the zero goal where there is none
abbrev pub goal_of : GoMap Goal → String → Goal
goal_of goals id = elim (get goals id) [ none ↦ no_goal | some goal ↦ goal ]

unfoldable pub add_goal : GoalEngine → Goal → ℕ → GoalEngine × Option Error
add_goal g goal now =
    if goal.id == ""
    then (g, some invalid_goal)
    else if is_some (get g.goals goal.id)
    then (g, some goal_already_exists)
    else (
      record g {
        goals =
            put g.goals goal.id
              (record goal { state = active; clock = g.clock; started_at = some now });
        active_goals = g.active_goals ++ goal.id ∷ [];
      },
      none,
    )

unfoldable pub remove_from_slices : GoalEngine → String → GoalEngine
remove_from_slices g id = record g {
  active_goals = remove_first id g.active_goals;
  pending_goals = remove_first id g.pending_goals;
}

unfoldable pub remove_goal : GoalEngine → String → GoalEngine × Option Error
remove_goal g id = elim (get g.goals id) [
  | none ↦ (g, some goal_not_found)
  | some goal ↦ let g' = remove_from_slices g id in (record g' { goals = delete g'.goals id }, none)
]

-- A goal that is found is given a state and leaves both lists.
abbrev pub close_goal : GoalEngine → String → (Goal → Goal) → GoalEngine × Option Error
close_goal g id close = elim (get g.goals id) [
  | none ↦ (g, some goal_not_found)
  | some goal ↦ (remove_from_slices (record g { goals = put g.goals id (close goal) }) id, none)
]

unfoldable pub complete_goal : GoalEngine → String → GoalEngine × Option Error
complete_goal g id = close_goal g id (λ goal. record goal { state = complete })

unfoldable pub fail_goal : GoalEngine → String → GoalEngine × Option Error
fail_goal g id = close_goal g id (λ goal. record goal { state = failed })

unfoldable pub cancel_goal : GoalEngine → String → String → ℕ → GoalEngine × Option Error
cancel_goal g id reason now =
    close_goal g id
      (λ goal. record goal { state = cancelled; fail_reason = reason; cancelled_at = some now })

unfoldable pub activate_goal : GoalEngine → String → GoalEngine × Option Error
activate_goal g id = elim (get g.goals id) [
  | none ↦ (g, some goal_not_found)
  | some goal ↦
      let g' =
        remove_from_slices (record g { goals = put g.goals id (record goal { state = active }) })
          id in
      (record g' { active_goals = g'.active_goals ++ id ∷ [] }, none)
]

-- Higher priority first, then the older clock. Goals that agree in both come in some order.
unfoldable pub goal_less : Goal → Goal → Bool
goal_less a b =
    if eqb_ℤ a.priority b.priority then ltb a.clock b.clock else ltb_ℤ b.priority a.priority

unfoldable pub list_active_goals : GoalEngine → List Goal
list_active_goals g = sort goal_less (map (goal_of g.goals) g.active_goals)

unfoldable pub list_pending_goals : GoalEngine → List Goal
list_pending_goals g = sort goal_less (map (goal_of g.goals) g.pending_goals)

-- A condition is evaluated through a tracker, and the paths that it read are kept.
unfoldable pub evaluate : GoalEngine → Goal → State → GoalEngine × Bool
evaluate g goal d = elim goal.condition [
  | none ↦ (g, false)
  | some condition ↦
      let (result, paths) = track condition d in
      (record g { goal_dependencies = put g.goal_dependencies goal.id paths }, result)
]

-- A child as `SpawnChildren` completes it.
abbrev pub child_of : GoalEngine → Goal → Goal → Goal
child_of g goal child = record child {
  parent_id = some goal.id;
  clock = g.clock;
  state = pending;
  trace = record goal.trace { goal_id = child.id };
}

unfoldable pub add_pending : GoalEngine → Goal → GoalEngine
add_pending g goal = record g {
  goals = put g.goals goal.id goal;
  pending_goals = g.pending_goals ++ goal.id ∷ [];
}

unfoldable pub add_children : GoalEngine → List Goal → GoalEngine
add_children g [] = g
add_children g (child ∷ children) = add_children (add_pending g child) children

unfoldable pub spawn_children : Closures → GoalEngine → Goal → State → GoalEngine × List Goal
spawn_children closures g goal d = elim goal.spawn [
  | none ↦ (g, [])
  | some f ↦
      let children = map (child_of g goal) (closures.spawns f d) in
      let g' = add_children g children in (record g' { clock = u64 (g.clock + 1) }, children)
]

-- What `HandleEvent` makes of one goal.
pub data Verdict : Type 0 where
  triggered untouched unsettled : Verdict

unfoldable pub any_in : List String → List String → Bool
any_in [] paths = false
any_in (p ∷ ps) paths = contains p paths || any_in ps paths

abbrev by_dependencies : GoalState → Bool → Verdict
by_dependencies pending true = triggered
by_dependencies complete true = unsettled
by_dependencies _ _ = untouched

unfoldable pub verdict : GoalEngine → List String → String → Goal → Verdict
unfolding any_in
verdict g writes id goal =
    let deps : List String = elim (get g.goal_dependencies id) [ none ↦ [] | some ps ↦ ps ] in
    let dependent = by_dependencies goal.state (any_in writes deps) in
    elim goal.state [
      | pending ↦ elim goal.trigger.path [
        | some path ↦ if contains path writes then triggered else untouched
        | none ↦ dependent
      ]
      | _ ↦ dependent
    ]

abbrev is_triggered : Verdict → Bool
is_triggered triggered = true
is_triggered _ = false

abbrev is_unsettled : Verdict → Bool
is_unsettled unsettled = true
is_unsettled _ = false

-- The goals with a verdict, in the order of the visit.
unfoldable pub judged : (Verdict → Bool) → GoalEngine → List String → List String → List String
judged wanted g writes [] = []
judged wanted g writes (id ∷ ids) =
    let rest = judged wanted g writes ids in
    if wanted (verdict g writes id (goal_of g.goals id)) then id ∷ rest else rest

unfoldable pub remove_all : GoalEngine → List String → GoalEngine
remove_all g [] = g
remove_all g (id ∷ ids) = remove_all (remove_from_slices g id) ids

unfoldable pub activate_triggered : GoalEngine → String → GoalEngine
activate_triggered g id = record g {
  active_goals = g.active_goals ++ id ∷ [];
  goals = put g.goals id (record (goal_of g.goals id) { state = active });
}

unfoldable pub activate_all : GoalEngine → List String → GoalEngine
activate_all g [] = g
activate_all g (id ∷ ids) = activate_all (activate_triggered g id) ids

abbrev pub add_compensation : GoalEngine → String → Option Goal → GoalEngine
add_compensation g id none = g
add_compensation g id (some comp) =
    if comp.id == ""
    then g
    else add_pending g (record comp { parent_id = some id; clock = g.clock; state = pending })

-- whether the condition of a goal still holds
abbrev pub still_satisfied : Goal → State → Bool
still_satisfied goal d = elim goal.condition [ none ↦ false | some c ↦ (track c d).0 ]

-- the compensation that a goal asks for
abbrev pub compensation : Closures → Goal → State → Option Goal
compensation closures goal d = elim goal.compensate [
  | none ↦ none
  | some f ↦ closures.compensates f d
]

-- A complete goal whose condition no longer holds is compensated.
unfoldable pub settle : Closures → State → GoalEngine → String → GoalEngine
settle closures d g id =
    let goal = goal_of g.goals id in
    let g' = record g { goals = put g.goals id (record goal { state = compensating }) } in
    if still_satisfied goal d then g else add_compensation g' goal.id (compensation closures goal d)

unfoldable pub settle_all : Closures → State → GoalEngine → List String → GoalEngine
settle_all closures d g [] = g
settle_all closures d g (id ∷ ids) = settle_all closures d (settle closures d g id) ids

unfoldable pub handle_event : Closures → State → GoalEngine → List String → Event → GoalEngine
handle_event closures d g order event =
    let woken = judged is_triggered g event.write_paths order in
    let upset = judged is_unsettled g event.write_paths order in
    elim event.write_paths [
      | [] ↦ g
      | _ ∷ _ ↦ settle_all closures d (activate_all (remove_all g woken) (sort str_ltb woken)) upset
    ]

unfoldable pub advance_clock : GoalEngine → GoalEngine × ℕ
advance_clock g = let now = u64 (g.clock + 1) in (record g { clock = now }, now)

unfoldable pub start : GoalEngine → GoalEngine
start g = record g { running = true }

unfoldable pub stop : GoalEngine → GoalEngine
stop g = record g { running = false }
