-- ===== src/Planning/Analysis.antt =====
-- planning/planner.go: the what-if analysis and the planner around the graph. The risk of a scenario,
-- a float that grows with the number of its goals, is left out, and so are the alternatives of the
-- planner, which no code sets.
pub mod Edgeless
pub mod Parallel
use ugem.Prelude.{
  ℕ, zero, suc, ◌+◌, ◌≡◌, String, Bool, true, false, Option, none, some, List, [], ◌∷◌, ◌++◌, GoMap,
  ◌==◌, if◌then◌else◌, nat_eq, ltb, length, get, put, contains, is_some,
}
use ugem.Types.{Error, other, panic, Value, text, Result, ok, err}
use ugem.Goal.{GoalState, active, Goal}
use ugem.Planning.{
  DependencyNode, DependencyGraph, new_dependency_graph, add_node, topological_sort,
  get_execution_order,
}
use Prim.Native.String as Str

pub record WhatIfScenario : Type 0 where
  pub name : String
  pub changes : GoMap (GoMap Value)
  pub projected_goals : List String

pub record WhatIfAnalyzer : Type 0 where
  pub graph : DependencyGraph
  pub current_goals : GoMap Goal

unfoldable pub load_goals : WhatIfAnalyzer → List Goal → WhatIfAnalyzer
load_goals a [] = a
load_goals a (goal ∷ goals) =
    load_goals
      (record {
        graph = (add_node a.graph goal.id []).0;
        current_goals = put a.current_goals goal.id goal;
      })
      goals

unfoldable pub new_what_if_analyzer : List Goal → WhatIfAnalyzer
new_what_if_analyzer goals =
    load_goals (record { graph = new_dependency_graph; current_goals = [] }) goals

-- The names that are visited, and the goals that are affected.
pub record Affected : Type 0 where
  pub visited : List String
  pub affected : List String

-- The loop over the dependents of a goal; `visit` is the call for one of them, and `none` where the
-- fuel of the model is used up.
unfoldable pub spread :
    (String → Affected → Option Affected) → List String → Affected → Option Affected
spread visit [] s = some s
spread visit (dependent ∷ dependents) s =
    elim (visit dependent (record s { affected = s.affected ++ dependent ∷ [] })) [
      | none ↦ none
      | some s' ↦ spread visit dependents s'
    ]

unfoldable pub affected_from : GoMap DependencyNode → ℕ → String → Affected → Option Affected
affected_from nodes zero id s = none
affected_from nodes (suc fuel) id s =
    if contains id s.visited then some s else elim (get nodes id) [
      | none ↦ some (record s { visited = id ∷ s.visited })
      | some node ↦
          spread (affected_from nodes fuel) node.dependents (record s { visited = id ∷ s.visited })
    ]

abbrev pub affected_of : Option Affected → Option (List String)
affected_of none = none
affected_of (some s) = some s.affected

unfoldable pub get_affected_goals : WhatIfAnalyzer → String → Option (List String)
get_affected_goals a goal_id = affected_of (
    affected_from a.graph.nodes (suc (suc (length a.graph.nodes))) goal_id
      (record { visited = []; affected = [] }))

-- `SimulateGoalCompletion` and `SimulateGoalFailure`
unfoldable pub simulate_goal :
    String → String → WhatIfAnalyzer → String → Bool → Option WhatIfScenario
simulate_goal prefix state a goal_id cascade =
    let scenario : WhatIfScenario = record {
      name = Str.◌++◌ prefix goal_id;
      changes = (goal_id, ("state", text state) ∷ []) ∷ [];
      projected_goals = [];
    } in
    if cascade
    then (elim (get_affected_goals a goal_id) [
      | none ↦ none
      | some affected ↦ some (record scenario { projected_goals = affected })
    ])
    else some scenario

abbrev pub simulate_goal_completion : WhatIfAnalyzer → String → Bool → Option WhatIfScenario
simulate_goal_completion = simulate_goal "complete_" "complete"

abbrev pub simulate_goal_failure : WhatIfAnalyzer → String → Bool → Option WhatIfScenario
simulate_goal_failure = simulate_goal "fail_" "failed"

abbrev pub is_active : GoalState → Bool
is_active active = true
is_active _ = false

-- The loop of `SimulateResourceConstraint`, in the order in which the map of goals is visited.
unfoldable pub constrain : GoMap Goal → String → List String → WhatIfScenario → WhatIfScenario
constrain goals resource_id [] scenario = scenario
constrain goals resource_id (goal_id ∷ order) scenario =
    let is_hit : Bool = elim (get goals goal_id) [
      | none ↦ false
      | some goal ↦ is_active goal.state
    ] in
    constrain goals resource_id order (
      if is_hit
      then record scenario {
        changes =
            put scenario.changes goal_id
              (("state", text "pending") ∷ ("resource", text resource_id) ∷ []);
        projected_goals = scenario.projected_goals ++ goal_id ∷ [];
      }
      else scenario)

unfoldable pub simulate_resource_constraint : WhatIfAnalyzer → String → List String → WhatIfScenario
simulate_resource_constraint a resource_id order =
    constrain a.current_goals resource_id order (record {
      name = Str.◌++◌ "resource_constraint_" resource_id;
      changes = [];
      projected_goals = [];
    })

pub record GoalPlanner : Type 0 where
  pub graph : DependencyGraph
  pub goals : GoMap Goal

abbrev pub new_goal_planner : GoalPlanner
new_goal_planner = record { graph = new_dependency_graph; goals = [] }

-- `AddGoal`
unfoldable pub plan_new_goal : GoalPlanner → Goal → GoalPlanner × Option Error
plan_new_goal p goal =
    let (g, e) = add_node p.graph goal.id [] in
    elim e [
      | some x ↦ (record p { graph = g }, some x)
      | none ↦ (record { graph = g; goals = put p.goals goal.id goal }, none)
    ]

unfoldable pub known_goals : GoMap Goal → List String → List String
known_goals goals [] = []
known_goals goals (id ∷ ids) =
    let rest = known_goals goals ids in if is_some (get goals id) then id ∷ rest else rest

unfoldable pub get_execution_plan : GoalPlanner → List String → Option (Result (List String))
get_execution_plan p order = elim (get_execution_order p.graph order) [
  | none ↦ none
  | some (err e) ↦ some (err (other "failed to get execution order"))
  | some (ok ids) ↦ some (ok (known_goals p.goals ids))
]

-- The order is the one in which the map of goals is visited.
unfoldable pub analyze_dependencies : GoalPlanner → List String → GoMap (List String)
analyze_dependencies p [] = []
analyze_dependencies p (id ∷ order) =
    let rest = analyze_dependencies p order in
    put rest id (elim (get p.graph.nodes id) [ none ↦ [] | some node ↦ node.dependees ])

-- The level of a goal is one more than the greatest level of those that it depends on.
unfoldable pub max_level : GoMap ℕ → List String → ℕ → ℕ
max_level levels [] n = n
max_level levels (dep ∷ deps) n = elim (get levels dep) [
  | none ↦ max_level levels deps n
  | some l ↦ max_level levels deps (if ltb n l then l else n)
]

unfoldable pub level_of : GoMap ℕ → List String → ℕ
level_of levels [] = 0
level_of levels (dep ∷ deps) = max_level levels (dep ∷ deps) 0 + 1

-- A goal that is no node is a nil pointer.
unfoldable pub level_loop : GoMap DependencyNode → List String → GoMap ℕ → Result (GoMap ℕ)
level_loop nodes [] levels = ok levels
level_loop nodes (id ∷ ids) levels = elim (get nodes id) [
  | none ↦ err panic
  | some node ↦ level_loop nodes ids (put levels id (level_of levels node.dependees))
]

-- The groups by their levels, which are kept in order.
unfoldable pub add_to_group : ℕ → String → List (ℕ × List String) → List (ℕ × List String)
add_to_group level id [] = (level, id ∷ []) ∷ []
add_to_group level id ((l, ids) ∷ groups) =
    if nat_eq level l
    then (l, ids ++ id ∷ []) ∷ groups
    else if ltb level l
    then (level, id ∷ []) ∷ (l, ids) ∷ groups
    else (l, ids) ∷ add_to_group level id groups

-- The order is the one in which the map of levels is visited.
unfoldable pub group_loop : GoMap ℕ → List String → List (ℕ × List String) → List (ℕ × List String)
group_loop levels [] groups = groups
group_loop levels (id ∷ order) groups = elim (get levels id) [
  | none ↦ group_loop levels order groups
  | some level ↦ group_loop levels order (add_to_group level id groups)
]

unfoldable pub members : List (ℕ × List String) → List (List String)
members [] = []
members ((level, ids) ∷ groups) = ids ∷ members groups

unfoldable pub group_sorted :
    GoMap DependencyNode → List String → Result (List String) → Result (List (List String))
group_sorted nodes order (err e) = err e
group_sorted nodes order (ok ids) = elim (level_loop nodes ids []) [
  | err e ↦ err e
  | ok levels ↦ ok (members (group_loop levels order []))
]

unfoldable pub find_parallelizable :
    GoalPlanner → List String → List String → Option (Result (List (List String)))
find_parallelizable p order level_order = elim (topological_sort p.graph order) [
  | none ↦ none
  | some r ↦ some (group_sorted p.graph.nodes level_order r)
]
