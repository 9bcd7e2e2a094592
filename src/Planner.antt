-- ===== src/Planner.antt =====
-- runtime/planner.go: the plan of actions for the missing paths of a goal. A handler of the client is a
-- number. `Execute`, `Cancel` and `FallbackPlan` of an action, which the planner never sets, and the
-- name and the priority of an alternative, which no code reads, are left out.
pub mod Plans
pub mod Bare
pub mod Fallback
pub mod Validation
mod Samples
use ugem.Prelude.{
  ℕ, ◌+◌, ◌-◌, ◌%◌, ◌≡◌, String, Bool, true, false, not, ◌&&◌, ◌||◌, Option, none, some, List, [],
  ◌∷◌, ◌++◌, map, GoMap, ◌==◌, keys, if◌then◌else◌, u64, ltb, get, get_elem?, put, contains, length,
  is_some,
}
use ugem.Prelude.Int.{ℤ, pos}
use ugem.Prelude.Sort.{sort}
use ugem.Prelude.StringOrder.{str_ltb}
use ugem.Types.{Error, cyclic_dependency, Value, text}
use ugem.Goal.{RetryStrategy}
use ugem.Cycles.{Outcome, exhausted, cycle, clear, no_marks, dfs, find_cycle}
use Prim.Native.String as Str

pub record Action : Type 0 where
  pub id : String
  pub type : String
  pub input : GoMap Value
  pub timeout : ℕ
  pub retries : ℤ
  pub idempotency : String
  pub backoff : Option RetryStrategy

-- `Action{}`
abbrev pub no_action : Action
no_action = record {
  id = "";
  type = "";
  input = [];
  timeout = 0;
  retries = pos 0;
  idempotency = "";
  backoff = none;
}

pub record Plan : Type 0 where
  pub actions : List Action
  pub event_ids : List ℕ
  pub goal_id : String
  pub logical_seq : ℕ

pub record ActionResolver : Type 0 where
  pub action_type : String
  pub handler : ℕ

-- An alternative plan is the list of its actions.
pub record Planner : Type 0 where
  pub resolvers : GoMap ActionResolver
  pub dependency_graph : GoMap (List String)
  pub clock : ℕ  -- uint64
  pub action_seq : ℕ  -- uint64
  pub alternative_plans : GoMap (List (List Action))

abbrev pub new_planner : Planner
new_planner = record {
  resolvers = [];
  dependency_graph = [];
  clock = 0;
  action_seq = 0;
  alternative_plans = [];
}

abbrev pub register_action : Planner → String → ℕ → Planner
register_action p action_type handler = record p {
  resolvers = put p.resolvers action_type (record { action_type = action_type; handler = handler });
}

abbrev pub register_dependency : Planner → String → List String → Planner
register_dependency p action_type depends_on = record p {
  dependency_graph = put p.dependency_graph action_type depends_on;
}

-- `p.alternativePlans[goalID]`
abbrev pub alternatives : Planner → String → List (List Action)
alternatives p goal_id = elim (get p.alternative_plans goal_id) [ none ↦ [] | some alts ↦ alts ]

abbrev pub register_alternative_plan : Planner → String → List Action → Planner
register_alternative_plan p goal_id alt = record p {
  alternative_plans = put p.alternative_plans goal_id (alternatives p goal_id ++ alt ∷ []);
}

abbrev pub get_action_resolver : Planner → String → Option ActionResolver
get_action_resolver p action_type = get p.resolvers action_type

abbrev pub dependencies : Planner → String → List String
dependencies p path = elim (get p.dependency_graph path) [ none ↦ [] | some deps ↦ deps ]

abbrev pub action_id : String → String
action_id path = Str.◌++◌ path "_action"

-- The action for a path has the first type of action that is registered.
unfoldable pub create_action_for_path : Planner → String → Action
create_action_for_path p path = elim (sort str_ltb (keys p.resolvers)) [
  | [] ↦ no_action
  | action_type ∷ _ ↦ record {
    id = action_id path;
    type = action_type;
    input = ("path", text path) ∷ [];
    timeout = 30000000000;
    retries = pos 3;
    idempotency = path;
    backoff = none;
  }
]

abbrev pub enqueue_action : Action → List Action → List Action
enqueue_action action queue = if action.id == "" then queue else queue ++ action ∷ []

-- The loop over the dependencies of a path: the names that are visited, and the queue.
unfoldable pub gather_dependencies :
    Planner → List String → List String → List Action → List String × List Action
gather_dependencies p [] visited queue = (visited, queue)
gather_dependencies p (dep ∷ deps) visited queue =
    if contains dep visited
    then gather_dependencies p deps visited queue
    else gather_dependencies p deps (dep ∷ visited)
        (enqueue_action (create_action_for_path p dep) queue)

-- The first loop over the missing paths.
unfoldable pub gather_paths :
    Planner → List String → List String → List String → List Action → List Action
gather_paths p [] visited_paths visited queue = queue
gather_paths p (path ∷ paths) visited_paths visited queue =
    let gathered = gather_dependencies p (dependencies p path) visited queue in
    if contains path visited_paths
    then gather_paths p paths visited_paths visited queue
    else gather_paths p paths (path ∷ visited_paths) gathered.0 gathered.1

unfoldable pub has_id : String → List Action → Bool
has_id id [] = false
has_id id (a ∷ queue) = a.id == id || has_id id queue

-- The second loop.
unfoldable pub gather_missing : Planner → List String → List Action → List Action
gather_missing p [] queue = queue
gather_missing p (path ∷ paths) queue =
    let action = create_action_for_path p path in
    gather_missing p paths (if has_id action.id queue then queue else enqueue_action action queue)

unfoldable pub compute_action_sequence : Planner → List String → List Action
compute_action_sequence p missing = gather_missing p missing (gather_paths p missing [] [] [])

abbrev pub id_less : Action → Action → Bool
id_less a b = str_ltb a.id b.id

unfoldable pub build_action_plan : Planner → List String → List Action
build_action_plan p missing = sort id_less (compute_action_sequence p missing)

-- The error that it returns beside the plan is always nil.
unfoldable pub resolve : Planner → List String → Planner × Plan
resolve p [] =
    (p, record { actions = []; event_ids = []; goal_id = ""; logical_seq = p.action_seq })
resolve p (path ∷ paths) =
    let seq = u64 (p.action_seq + 1) in
    (
      record p { action_seq = seq; clock = u64 (p.clock + 1) },
      record {
        actions = build_action_plan p (path ∷ paths);
        event_ids = [];
        goal_id = "";
        logical_seq = seq;
      },
    )

abbrev pub alternative_at : List (List Action) → ℕ → List Action
alternative_at alts i = elim (get_elem? alts i) [ none ↦ [] | some actions ↦ actions ]

unfoldable pub resolve_with_fallback : Planner → String → List String → ℕ → Planner × Plan
resolve_with_fallback p goal_id missing failure_count =
    let (p', plan) = resolve p missing in
    let alts = alternatives p goal_id in
    (
      p',
      if ltb 0 (length alts) && ltb 0 failure_count
          then record {
            actions = alternative_at alts ((failure_count - 1) % length alts);
            event_ids = [];
            goal_id = goal_id;
            logical_seq = plan.logical_seq;
          }
          else plan,
    )

-- The neighbours of a name in the search for a cycle: a name without dependencies has none.
abbrev pub neighbors : Planner → String → Option (List String)
neighbors p name = some (dependencies p name)

unfoldable pub dependency_names : GoMap (List String) → List String
dependency_names [] = []
dependency_names ((name, deps) ∷ graph) = deps ++ dependency_names graph

-- The fuel of the search: as many names as there can be.
abbrev pub search_names : Planner → List String → List String
search_names p order = order ++ dependency_names p.dependency_graph

-- `order` is the order in which the map of resolvers is visited.
abbrev pub is_cycle : Outcome → Bool
is_cycle (cycle path) = true
is_cycle _ = false

unfoldable pub has_cyclic_dependency : Planner → List String → Bool
has_cyclic_dependency p order =
    is_cycle (find_cycle (dfs (neighbors p) (length (search_names p order))) order no_marks)

unfoldable pub validate : Planner → List String → Option Error
validate p order = if has_cyclic_dependency p order then some cyclic_dependency else none
