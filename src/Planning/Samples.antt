-- ===== src/Planning/Samples.antt =====
-- Graphs of goals, and the theorems about them at these.
use ugem.Prelude.{
  ◌≡◌, ◌≢◌, ◌↔◌, refl, true, none, some, [], ◌∷◌, String, get, put, contains, is_some, count,
  eq_iff, arith,
}
use ugem.Types.{err, other}
use ugem.Planning.{
  DependencyGraph, new_dependency_graph, add_node, note_dependents, note_dependent, add_dependency,
  remove_node, has_cycle, topological_sort,
}
use ugem.Planning.HasCycle.{DependsOn, Chain, has_cycle_iff}
use ugem.Planning.Mirror.{IsMirrored}
use ugem.Planning.Mirror.Calls.{fresh, next, adding, depending, removing, Reach-IsMirrored}
use ugem.Planning.Sorting.{topological_sort-ne-none}
use ugem.Planning.Accepted.{has_edge, topological_sort_iff}
use ugem.Goal.{Goal, pending}
use ugem.SampleData.{waiting}
use ugem.Planning.Analysis.{GoalPlanner, new_goal_planner, plan_new_goal}
use ugem.Planning.Analysis.Edgeless as Edgeless

-- `roof` depends on `wall`, and `wall` on `roof`.
abbrev round : DependencyGraph
round = record {
  nodes =
      ("roof", record { goal_id = "roof"; dependents = "wall" ∷ []; dependees = "wall" ∷ [] })
      ∷ ("wall", record { goal_id = "wall"; dependents = "roof" ∷ []; dependees = "roof" ∷ [] })
      ∷ [];
}

round_edges : (x y : String) → DependsOn round x y → is_some (get round.nodes y) ≡ true
unfolding get contains
round_edges x y (ys, e, c) =
    ground (arith, e, c, eq_iff "roof" x, eq_iff "wall" x, eq_iff "roof" y, eq_iff "wall" y)

round_complete : (id : String) → contains id ("roof" ∷ "wall" ∷ []) ≡ is_some (get round.nodes id)
unfolding get contains
round_complete id = ground arith

has_cycle_iff_example :
    ((has_cycle round ("roof" ∷ "wall" ∷ [])).0 ≡ true) ↔ ((x : String) × Chain round x x)
has_cycle_iff_example = has_cycle_iff round ("roof" ∷ "wall" ∷ []) round_complete round_edges

topological_sort-ne-none_example : topological_sort round ("roof" ∷ "wall" ∷ []) ≢ none
topological_sort-ne-none_example = topological_sort-ne-none round ("roof" ∷ "wall" ∷ [])

-- `roof` depends on `wall`, which depends on nothing.
abbrev house : DependencyGraph
house = record {
  nodes =
      ("wall", record { goal_id = "wall"; dependents = "roof" ∷ []; dependees = [] })
      ∷ ("roof", record { goal_id = "roof"; dependents = []; dependees = "wall" ∷ [] })
      ∷ [];
}

house_complete : (id : String) → contains id ("wall" ∷ "roof" ∷ []) ≡ is_some (get house.nodes id)
unfolding get contains
house_complete id = ground arith

house-IsMirrored : IsMirrored house.nodes
unfolding get add_node put note_dependents note_dependent count
house-IsMirrored =
    Reach-IsMirrored
      (next (next fresh (adding "wall" [] tt)) (adding "roof" ("wall" ∷ []) (refl, tt)))

topological_sort_iff_example :
    topological_sort house ("wall" ∷ "roof" ∷ []) ≡ some (err (other "graph has cycles"))
unfolding get has_edge
topological_sort_iff_example =
    topological_sort_iff house ("wall" ∷ "roof" ∷ []) house_complete refl house-IsMirrored
      (refl, (refl, tt))

Reach-IsMirrored_example :
    IsMirrored
      (remove_node
        (add_dependency
          (add_node (add_node new_dependency_graph "wall" []).0 "roof" ("wall" ∷ [])).0
          "roof"
          "door")
        "wall").0.nodes
unfolding count get add_node put note_dependents
Reach-IsMirrored_example = Reach-IsMirrored (
    next
      (next (next (next fresh (adding "wall" [] tt)) (adding "roof" ("wall" ∷ []) (refl, tt)))
        (depending "roof" "door"))
      (removing "wall"))

abbrev build : String → Goal
build id = waiting id "site" pending

abbrev builder : GoalPlanner
builder = (plan_new_goal (plan_new_goal new_goal_planner (build "wall")).0 (build "roof")).0

builder-Reach : Edgeless.Reach builder
builder-Reach = Edgeless.next (Edgeless.next Edgeless.fresh (build "wall")) (build "roof")

builder_complete :
    (id : String) → contains id ("roof" ∷ "wall" ∷ []) ≡ is_some (get builder.graph.nodes id)
unfolding contains get plan_new_goal add_node note_dependents put
builder_complete id = ground (arith, eq_iff "roof" id, eq_iff "wall" id)

builder_complete_also :
    (id : String) → contains id ("wall" ∷ "roof" ∷ []) ≡ is_some (get builder.graph.nodes id)
unfolding contains get plan_new_goal add_node note_dependents put
builder_complete_also id = ground (arith, eq_iff "roof" id, eq_iff "wall" id)
