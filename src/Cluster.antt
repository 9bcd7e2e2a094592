-- ===== src/Cluster.antt =====
-- distributed/cluster.go: the nodes of a cluster, their goals and their leader. The local node is the
-- one of the name `local_id`. A connection is whether it is there; the FNV hash is an argument, and
-- so is the order in which the map of nodes is visited. A method that returns a node returns its
-- name, `none` for nil.
pub mod Steps
pub mod Leader
pub mod Placement
mod Samples
use ugem.Prelude.{
  ℕ, zero, suc, ◌+◌, ◌-◌, ◌*◌, ◌%◌, ◌^◌, ◌≡◌, String, Bool, true, false, not, ◌&&◌, ◌||◌, Option,
  none, some, List, [], ◌∷◌, map, GoMap, ◌==◌, if◌then◌else◌, nat_eq, ltb, get, get_elem?, put,
  delete, contains, length, is_some,
}
use ugem.Prelude.Int.{ℤ, pos, negsuc}
use ugem.Types.{Error, other, panic, Result, ok, err}
use ugem.Goal.{Goal}

-- `goals` is `none` for a nil map.
pub record Node : Type 0 where
  pub id : String
  pub address : String
  pub is_leader : Bool
  pub goals : Option (GoMap Goal)
  pub connected : Bool
  pub last_seen : ℕ

pub record Cluster : Type 0 where
  pub nodes : GoMap Node
  pub local_id : String
  pub leader_id : String

pub data PartitionStrategy : Type 0 where
  by_hash by_goal_type by_priority : PartitionStrategy

abbrev pub new_cluster : String → String → ℕ → Cluster
new_cluster local_id local_addr now = record {
  nodes =
      (
        local_id,
        record {
          id = local_id;
          address = local_addr;
          is_leader = true;
          goals = some [];
          connected = false;
          last_seen = now;
        },
      )
      ∷ [];
  local_id = local_id;
  leader_id = local_id;
}

-- `dialed` is whether `grpc.Dial` succeeds.
unfoldable pub add_node : Cluster → String → String → Bool → ℕ → Cluster × Option Error
add_node c id addr dialed now =
    if is_some (get c.nodes id)
    then (c, some (other "node already exists"))
    else if dialed
    then (
      record c {
        nodes = put c.nodes id (record {
          id = id;
          address = addr;
          is_leader = false;
          goals = none;
          connected = true;
          last_seen = now;
        });
      },
      none,
    )
    else (c, some (other "failed to connect to node"))

unfoldable pub remove_node : Cluster → String → Cluster × Option Error
remove_node c id =
    if id == c.local_id
    then (c, some (other "cannot remove local node"))
    else if is_some (get c.nodes id)
    then (record c { nodes = delete c.nodes id }, none)
    else (c, some (other "node not found"))

abbrev pub get_leader : Cluster → Option Node
get_leader c = get c.nodes c.leader_id

-- `len(node.Goals)`
abbrev pub goal_count : Node → ℕ
goal_count node = elim node.goals [ none ↦ 0 | some goals ↦ length goals ]

abbrev pub count_at : GoMap Node → String → ℕ
count_at nodes id = elim (get nodes id) [ none ↦ 0 | some node ↦ goal_count node ]

-- The loop of `ElectLeader`: the name of the node with most goals, if any has one.
unfoldable pub most_goals : GoMap Node → List String → ℕ → Option String → Option String
most_goals nodes [] max_goals new_leader = new_leader
most_goals nodes (id ∷ order) max_goals new_leader =
    let n = count_at nodes id in
    most_goals nodes order (if ltb max_goals n then n else max_goals)
      (if ltb max_goals n then some id else new_leader)

-- `IsLeader` is set at one node, and reset at the others.
unfoldable pub mark_leader : String → GoMap Node → GoMap Node
mark_leader leader [] = []
mark_leader leader ((id, node) ∷ nodes) =
    (id, record node { is_leader = id == leader }) ∷ mark_leader leader nodes

unfoldable pub elect_leader : Cluster → List String → Cluster
elect_leader c order = elim (most_goals c.nodes order 0 none) [
  | none ↦ c
  | some leader ↦
      if leader == c.leader_id
      then c
      else record c { nodes = mark_leader leader c.nodes; leader_id = leader }
]

-- `int(n) % m` of a word of 64 bits, where it is not negative
unfoldable pub signed_index : ℕ → ℕ → Option ℕ
signed_index n m =
    if ltb n (2 ^ 63) then some (n % m) else if nat_eq ((2 ^ 64 - n) % m) 0 then some 0 else none

-- `priority % m`, where it is not negative
unfoldable pub priority_index : ℤ → ℕ → Option ℕ
priority_index (pos n) m = some (n % m)
priority_index (negsuc n) m = if nat_eq ((n + 1) % m) 0 then some 0 else none

-- The node at an index of the visit, the leader where there is none.
unfoldable pub node_at : Cluster → List String → Option ℕ → Option String
node_at c order none = if is_some (get c.nodes c.leader_id) then some c.leader_id else none
node_at c order (some i) = elim (get_elem? order i) [
  | some id ↦ some id
  | none ↦ if is_some (get c.nodes c.leader_id) then some c.leader_id else none
]

-- A goal of the local node.
abbrev pub local_goal : Cluster → String → Option Goal
local_goal c goal_id = elim (get c.nodes c.local_id) [
  | none ↦ none
  | some node ↦ elim node.goals [ none ↦ none | some goals ↦ get goals goal_id ]
]

-- The node that a strategy chooses among some nodes.
unfoldable pub choose_node :
    (String → ℕ) → Cluster → List String → String → PartitionStrategy → Option String
choose_node hash c order goal_id by_hash =
    node_at c order (signed_index (hash goal_id) (length c.nodes))
choose_node hash c order goal_id by_goal_type = elim (local_goal c goal_id) [
  | none ↦ some c.local_id
  | some _ ↦ node_at c order (signed_index (hash "*runtime.Goal") (length c.nodes))
]
choose_node hash c order goal_id by_priority = elim (local_goal c goal_id) [
  | none ↦ some c.local_id
  | some goal ↦ node_at c order (priority_index goal.priority (length c.nodes))
]

unfoldable pub route_goal :
    (String → ℕ) → Cluster → List String → String → PartitionStrategy → Result (Option String)
route_goal hash c order goal_id strategy =
    if nat_eq (length c.nodes) 0
    then err (other "no nodes in cluster")
    else ok (choose_node hash c order goal_id strategy)

-- `node.Goals[goal.ID] = goal`: a nil node and a nil map panic.
unfoldable pub place_goal : Cluster → String → Goal → Cluster × Result String
place_goal c id goal = elim (get c.nodes id) [
  | none ↦ (c, err panic)
  | some node ↦ elim node.goals [
    | none ↦ (c, err panic)
    | some goals ↦ (
      record c { nodes = put c.nodes id (record node { goals = some (put goals goal.id goal) }) },
      ok id,
    )
  ]
]

-- `DistributeGoal` after `RouteGoal` has answered.
unfoldable pub place_routed : Cluster → Goal → Result (Option String) → Cluster × Result String
place_routed c goal (err e) = (c, err e)
place_routed c goal (ok none) = (c, err panic)
place_routed c goal (ok (some id)) = place_goal c id goal

unfoldable pub distribute_goal :
    (String → ℕ) → Cluster → List String → Goal → Cluster × Result String
distribute_goal hash c order goal = place_routed c goal (route_goal hash c order goal.id by_hash)

-- A panic ends the loop of `ReplicateGoal`; the goals that were placed before it stay.
unfoldable pub unless_panic :
    Result String → Cluster → Cluster × Option Error → Cluster × Option Error
unless_panic (err e) c rest = (c, some e)
unless_panic (ok id) c rest = rest

-- The loop from an index on.
unfoldable pub replicate_loop : Cluster → List String → Goal → ℕ → ℕ → Cluster × Option Error
replicate_loop c order goal i zero = (c, none)
replicate_loop c order goal i (suc left) = elim (get_elem? order (i % length order)) [
  | none ↦ (c, some panic)
  | some id ↦
      let (c', placed) = place_goal c id goal in
      unless_panic placed c' (replicate_loop c' order goal (i + 1) left)
]

-- No nodes is a division by zero, and a negative start an index out of range. A negative factor of
-- replication is like 0.
unfoldable pub replicate_goal :
    (String → ℕ) → Cluster → List String → Goal → ℕ → Cluster × Option Error
replicate_goal hash c order goal factor =
    let m = length c.nodes in
    if nat_eq m 0 then (c, some panic) else elim (signed_index (hash goal.id) m) [
      | none ↦ (c, if nat_eq factor 0 then none else some panic)
      | some start ↦ replicate_loop c order goal start (if ltb m factor then m else factor)
    ]

unfoldable pub shutdown : Cluster → Cluster
shutdown c = record c { nodes = [] }
