-- ===== src/Cycles.antt =====
-- planning/planner.go, `HasCycle`, and runtime/planner.go, `HasCyclicDependency`: the depth-first
-- search for a cycle that both run. A map of Booleans is the list of the names that it has as true.
pub mod Sound
pub mod Complete
pub mod Fuel
use ugem.Prelude.{
  ℕ, zero, suc, ◌≡◌, String, Bool, true, false, not, Option, none, some, List, [], ◌∷◌, ◌==◌,
  if◌then◌else◌, contains,
}
use Prim.Native.String as Str

pub record Marks : Type 0 where
  pub visited : List String
  pub rec_stack : List String

abbrev pub no_marks : Marks
no_marks = record { visited = []; rec_stack = [] }

-- `recStack[name] = false`
unfoldable pub without : String → List String → List String
without name [] = []
without name (x ∷ xs) = let rest = without name xs in if x == name then rest else x ∷ rest

-- A search ends with a cycle, or with what it has marked; or the fuel of the model is used up.
pub data Outcome : Type 0 where
  exhausted : Outcome
  cycle : String → Outcome
  clear : Marks → Outcome

abbrev pub enter : String → Marks → Marks
enter node m = record { visited = node ∷ m.visited; rec_stack = node ∷ m.rec_stack }

abbrev pub leave : String → Marks → Marks
leave node m = record m { rec_stack = without node m.rec_stack }

-- What `dfs` does with what its loop has found.
unfoldable pub finish : String → Outcome → Outcome
finish node exhausted = exhausted
finish node (cycle path) = cycle path
finish node (clear m) = clear (leave node m)

-- The loop over the neighbours of a node; `visit` is the call of `dfs` for one of them.
unfoldable pub walk : (String → Marks → Outcome) → String → List String → Marks → Outcome
walk visit node [] m = clear m
walk visit node (neighbor ∷ neighbors) m = elim (contains neighbor m.visited) [
  | false ↦ elim (visit neighbor m) [
    | exhausted ↦ exhausted
    | cycle path ↦ cycle (Str.◌++◌ path (Str.◌++◌ " -> " node))
    | clear m' ↦ walk visit node neighbors m'
  ]
  | true ↦ elim (contains neighbor m.rec_stack) [
    | true ↦ cycle (Str.◌++◌ neighbor (Str.◌++◌ " -> " node))
    | false ↦ walk visit node neighbors m
  ]
]

-- `next` gives the neighbours of a name, `none` where the graph has no such node.
unfoldable pub dfs : (String → Option (List String)) → ℕ → String → Marks → Outcome
dfs next zero node m = exhausted
dfs next (suc fuel) node m = elim (next node) [
  | none ↦ clear (enter node m)
  | some neighbors ↦ finish node (walk (dfs next fuel) node neighbors (enter node m))
]

-- The loop over the nodes, in the order in which the map is visited.
unfoldable pub find_cycle : (String → Marks → Outcome) → List String → Marks → Outcome
find_cycle visit [] m = clear m
find_cycle visit (node ∷ nodes) m = elim (contains node m.visited) [
  | true ↦ find_cycle visit nodes m
  | false ↦ elim (visit node m) [
    | exhausted ↦ exhausted
    | cycle path ↦ cycle path
    | clear m' ↦ find_cycle visit nodes m'
  ]
]
