-- ===== src/Planning.antt =====
-- planning/planner.go: the graph of the dependencies between goals. `Weight` and `Metadata` of a node,
-- which no code sets or reads, are left out. Where a method ranges over a map, the order of the visit
-- is an argument.
pub mod Mirror
pub mod HasCycle
pub mod Sorting
pub mod Accepted
pub mod Analysis
mod Samples
use ugem.Prelude.{
  ℕ, zero, suc, ◌+◌, ◌≡◌, String, Bool, true, false, not, Option, none, some, List, [], ◌∷◌, ◌++◌,
  GoMap, ◌==◌, keys, if◌then◌else◌, nat_eq, length, get, put, delete, contains, remove_first,
  is_some,
}
use mathlib.Core.List.{reverse}
use ugem.Prelude.Int.{ℤ, pos, ◌+ℤ◌, ◌-ℤ◌, eqb_ℤ}
use ugem.Types.{Error, other, panic, Result, ok, err}
use ugem.Cycles.{Marks, no_marks, Outcome, exhausted, cycle, clear, dfs, find_cycle}

pub record DependencyNode : Type 0 where
  pub goal_id : String
  pub dependents : List String
  pub dependees : List String

pub record DependencyGraph : Type 0 where
  pub nodes : GoMap DependencyNode

abbrev pub new_dependency_graph : DependencyGraph
new_dependency_graph = record { nodes = [] }

-- `existing.Dependents = append(existing.Dependents, goalID)`, where the dependee is a node
unfoldable pub note_dependent : GoMap DependencyNode → String → String → GoMap DependencyNode
note_dependent nodes dep goal_id = elim (get nodes dep) [
  | none ↦ nodes
  | some node ↦ put nodes dep (record node { dependents = node.dependents ++ goal_id ∷ [] })
]

unfoldable pub note_dependents : GoMap DependencyNode → List String → String → GoMap DependencyNode
note_dependents nodes [] goal_id = nodes
note_dependents nodes (dep ∷ deps) goal_id =
    note_dependents (note_dependent nodes dep goal_id) deps goal_id

unfoldable pub add_node : DependencyGraph → String → List String → DependencyGraph × Option Error
add_node g goal_id dependees = elim (get g.nodes goal_id) [
  | some _ ↦ (g, some (other "node already exists"))
  | none ↦ (
    record g {
      nodes =
          put (note_dependents g.nodes dependees goal_id) goal_id
            (record { goal_id = goal_id; dependents = []; dependees = dependees });
    },
    none,
  )
]

unfoldable pub has_node : DependencyGraph → String → Bool
has_node g goal_id = is_some (get g.nodes goal_id)

-- A node, a new one where there is none.
unfoldable pub node_of : GoMap DependencyNode → String → DependencyNode
node_of nodes goal_id = elim (get nodes goal_id) [
  | none ↦ record { goal_id = goal_id; dependents = []; dependees = [] }
  | some node ↦ node
]

abbrev pub ensure : GoMap DependencyNode → String → GoMap DependencyNode
ensure nodes goal_id = put nodes goal_id (node_of nodes goal_id)

abbrev pub append_dependee : GoMap DependencyNode → String → String → GoMap DependencyNode
append_dependee nodes from to =
    put nodes from
      (record (node_of nodes from) { dependees = (node_of nodes from).dependees ++ to ∷ [] })

abbrev pub append_dependent : GoMap DependencyNode → String → String → GoMap DependencyNode
append_dependent nodes to from =
    put nodes to
      (record (node_of nodes to) { dependents = (node_of nodes to).dependents ++ from ∷ [] })

unfoldable pub add_dependency : DependencyGraph → String → String → DependencyGraph
add_dependency g from to = record g {
  nodes = append_dependent (append_dependee (ensure (ensure g.nodes from) to) from to) to from;
}

-- The bodies of the two loops of `RemoveNode`.
unfoldable pub drop_dependee : GoMap DependencyNode → String → String → GoMap DependencyNode
drop_dependee nodes dep goal_id = elim (get nodes dep) [
  | none ↦ nodes
  | some node ↦ put nodes dep (record node { dependees = remove_first goal_id node.dependees })
]

unfoldable pub drop_dependees : GoMap DependencyNode → List String → String → GoMap DependencyNode
drop_dependees nodes [] goal_id = nodes
drop_dependees nodes (dep ∷ deps) goal_id =
    drop_dependees (drop_dependee nodes dep goal_id) deps goal_id

unfoldable pub drop_dependent : GoMap DependencyNode → String → String → GoMap DependencyNode
drop_dependent nodes dep goal_id = elim (get nodes dep) [
  | none ↦ nodes
  | some node ↦ put nodes dep (record node { dependents = remove_first goal_id node.dependents })
]

unfoldable pub drop_dependents : GoMap DependencyNode → List String → String → GoMap DependencyNode
drop_dependents nodes [] goal_id = nodes
drop_dependents nodes (dep ∷ deps) goal_id =
    drop_dependents (drop_dependent nodes dep goal_id) deps goal_id

unfoldable pub remove_node : DependencyGraph → String → DependencyGraph × Option Error
remove_node g goal_id = elim (get g.nodes goal_id) [
  | none ↦ (g, some (other "node not found"))
  | some node ↦
      let nodes = drop_dependees g.nodes node.dependents goal_id in
      let nodes' = drop_dependents nodes (node_of nodes goal_id).dependees goal_id in
      (record g { nodes = delete nodes' goal_id }, none)
]

-- The neighbours of a node in the search for a cycle.
abbrev pub dependees_of : GoMap DependencyNode → String → Option (List String)
dependees_of nodes goal_id = elim (get nodes goal_id) [
  | none ↦ none
  | some node ↦ some node.dependees
]

-- All names that the graph writes: as much fuel as the search can need.
unfoldable pub names : GoMap DependencyNode → List String
names [] = []
names ((id, node) ∷ nodes) = id ∷ node.dependees ++ names nodes

abbrev pub answer_of : Outcome → Bool × String
answer_of exhausted = (false, "")
answer_of (cycle path) = (true, path)
answer_of (clear m) = (false, "")

unfoldable pub has_cycle : DependencyGraph → List String → Bool × String
has_cycle g order =
    answer_of (find_cycle (dfs (dependees_of g.nodes) (length (names g.nodes))) order no_marks)

abbrev pub degree_of : GoMap ℤ → String → ℤ
degree_of degrees id = elim (get degrees id) [ none ↦ pos 0 | some n ↦ n ]

-- `inDegree[dep]++` for the dependees of one node, and of all nodes
unfoldable pub raise : List String → GoMap ℤ → GoMap ℤ
raise [] degrees = degrees
raise (dep ∷ deps) degrees = raise deps (put degrees dep (degree_of degrees dep +ℤ pos 1))

unfoldable pub raise_all : GoMap DependencyNode → GoMap ℤ → GoMap ℤ
raise_all [] degrees = degrees
raise_all ((id, node) ∷ nodes) degrees = raise_all nodes (raise node.dependees degrees)

unfoldable pub zero_degrees : GoMap DependencyNode → GoMap ℤ → GoMap ℤ
zero_degrees [] degrees = degrees
zero_degrees ((id, node) ∷ nodes) degrees = zero_degrees nodes (put degrees id (pos 0))

-- the names of degree 0, in the order in which the map of degrees is visited
unfoldable pub ready : GoMap ℤ → List String → List String
ready degrees [] = []
ready degrees (id ∷ order) =
    let rest = ready degrees order in
    if eqb_ℤ (degree_of degrees id) (pos 0) then id ∷ rest else rest

-- The inner loop: the degrees and the queue.
unfoldable pub lower : List String → GoMap ℤ → List String → GoMap ℤ × List String
lower [] degrees queue = (degrees, queue)
lower (dep ∷ deps) degrees queue =
    let n = degree_of degrees dep -ℤ pos 1 in
    lower deps (put degrees dep n) (if eqb_ℤ n (pos 0) then queue ++ dep ∷ [] else queue)

-- The outer loop; `none` where the fuel of the model is used up.
unfoldable pub sort_loop :
    GoMap DependencyNode → ℕ → GoMap ℤ → List String → List String → Option (Result (List String))
sort_loop nodes fuel degrees [] result = some (ok result)
sort_loop nodes zero degrees (id ∷ queue) result = none
sort_loop nodes (suc fuel) degrees (id ∷ queue) result = elim (get nodes id) [
  | none ↦ some (err panic)
  | some node ↦
      let lowered = lower node.dependents degrees queue in
      sort_loop nodes fuel lowered.0 lowered.1 (result ++ id ∷ [])
]

abbrev pub all_degrees : DependencyGraph → GoMap ℤ
all_degrees g = raise_all g.nodes (zero_degrees g.nodes [])

unfoldable pub check_length : ℕ → Result (List String) → Result (List String)
check_length n (err e) = err e
check_length n (ok result) =
    if nat_eq (length result) n then ok result else err (other "graph has cycles")

unfoldable pub topological_sort : DependencyGraph → List String → Option (Result (List String))
topological_sort g order =
    let degrees = all_degrees g in
    elim (sort_loop g.nodes (length order + length degrees) degrees (ready degrees order) []) [
      | none ↦ none
      | some r ↦ some (check_length (length g.nodes) r)
    ]

unfoldable pub get_execution_order : DependencyGraph → List String → Option (Result (List String))
get_execution_order g order = elim (topological_sort g order) [
  | none ↦ none
  | some (err e) ↦ some (err e)
  | some (ok ids) ↦ some (ok (reverse ids))
]
