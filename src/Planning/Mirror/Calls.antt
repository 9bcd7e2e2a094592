-- ===== src/Planning/Mirror/Calls.antt =====
-- Each dependency stands at both of its ends after any calls.
use ugem.Prelude.{◌≡◌, refl, String, true, List, get, count, is_some, All}
use ugem.Planning.{
  DependencyGraph, new_dependency_graph, node_of, add_node, add_dependency, remove_node,
}
use ugem.Planning.Mirror.{IsMirrored, add_dependency-IsMirrored, add_node-IsMirrored}
use ugem.Planning.Mirror.Removing.{remove_node-IsMirrored}

-- One call of a method that changes the graph. A goal that is added depends on nodes only.
pub data Step (g : DependencyGraph) : DependencyGraph → Type 0 where
  adding :
      (id : String) (deps : List String)
      → All (λ dep. is_some (get g.nodes dep) ≡ true) deps
      → Step g (add_node g id deps).0
  depending : (from to : String) → Step g (add_dependency g from to)
  removing : (id : String) → Step g (remove_node g id).0

pub data Reach : DependencyGraph → Type 0 where
  fresh : Reach new_dependency_graph
  next : {g h : DependencyGraph} → Reach g → Step g h → Reach h

-- After any calls on a new graph, if a goal is added only after those that it depends on: a goal
-- stands among the dependents of another exactly as often as the other stands among its dependees.
pub Reach-IsMirrored : {g : DependencyGraph} → Reach g → IsMirrored g.nodes
unfolding node_of get count
Reach-IsMirrored fresh = λ a b. refl
Reach-IsMirrored (next {g = g} r (adding id deps known)) =
    add_node-IsMirrored g id deps known (Reach-IsMirrored r)
Reach-IsMirrored (next {g = g} r (depending from to)) =
    add_dependency-IsMirrored g from to (Reach-IsMirrored r)
Reach-IsMirrored (next {g = g} r (removing id)) = remove_node-IsMirrored g id (Reach-IsMirrored r)
