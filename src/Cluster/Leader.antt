-- ===== src/Cluster/Leader.antt =====
-- The leader of a cluster.
use ugem.Prelude.{
  ℕ, ◌≤◌, ◌<◌, ◌≡◌, refl, sym, ◌∙◌, String, Bool, true, Option, none, some, List, [], ◌∷◌, GoMap,
  ◌==◌, ltb, get, contains, is_some, eq_iff, arith, Bool-cases, Option-cases, inl, inr,
}
use ugem.Cluster.{
  Node, Cluster, add_node, remove_node, count_at, most_goals, mark_leader, elect_leader, route_goal,
  by_hash, distribute_goal, replicate_goal, shutdown,
}
use ugem.Cluster.Steps.{
  Step, adding, removing, electing, distributing, replicating, ending, Reach, fresh, next, IsPlaced,
  place_routed-IsPlaced, replicate_goal-IsPlaced, new_node, add_node_cases, remove_node_cases,
  get_new, get_left,
}

-- Only the leader is marked.
abbrev pub IsLed : Cluster → Type 0
IsLed c =
    (id : String) (node : Node)
    → get c.nodes id ≡ some node
    → node.is_leader ≡ true
    → id ≡ c.leader_id

pub get-mark_leader :
    (leader id : String) (nodes : GoMap Node)
    → get (mark_leader leader nodes) id ≡ elim (get nodes id) [
      | none ↦ none
      | some node ↦ some (record node { is_leader = id == leader })
    ]
unfolding mark_leader get
get-mark_leader leader id [] = refl
get-mark_leader leader id ((j, node) ∷ nodes) =
    ground (arith, get-mark_leader leader id nodes, eq_iff j id)

IsPlaced-IsLed : (c d : Cluster) → IsPlaced c d → IsLed c → IsLed d
IsPlaced-IsLed c d p led id node e flag =
    let (old, there, same, nil) = p.came_from id node e in
    led id old there (sym same ∙ flag) ∙ sym p.same_leader

add_node-IsLed :
    (c : Cluster) (id addr : String) (dialed : Bool) (now : ℕ)
    → IsLed c
    → IsLed (add_node c id addr dialed now).0
add_node-IsLed c id addr dialed now led = elim (add_node_cases c id addr dialed now) [
  | inl same ↦ rw same led
  | inr e ↦ rw e (λ j node found flag. elim (get_new c id j (new_node id addr now) node found) [
    | inl it ↦ absurd (ground (arith, it, flag))
    | inr there ↦ led j node there flag
  ])
]

remove_node-IsLed : (c : Cluster) (id : String) → IsLed c → IsLed (remove_node c id).0
remove_node-IsLed c id led = elim (remove_node_cases c id) [
  | inl same ↦ rw same led
  | inr e ↦ rw e (λ j node found flag. led j node (get_left c id j node found) flag)
]

marked-IsLed :
    (leader j : String) (nodes : GoMap Node) (node : Node)
    → get (mark_leader leader nodes) j ≡ some node
    → node.is_leader ≡ true
    → j ≡ leader
marked-IsLed leader j nodes node e flag = elim (Option-cases (get nodes j)) [
  | inl missing ↦ absurd (ground (arith, e, get-mark_leader leader j nodes, missing))
  | inr (old, there) ↦
      ground (arith, e, get-mark_leader leader j nodes, there, flag, eq_iff j leader)
]

elect_leader-IsLed : (c : Cluster) (order : List String) → IsLed c → IsLed (elect_leader c order)
unfolding elect_leader
elect_leader-IsLed c order led = elim (Option-cases (most_goals c.nodes order 0 none)) [
  | inl no_goals ↦ rw (no_goals, elect_leader) led
  | inr (leader, chosen) ↦ elim (Bool-cases (leader == c.leader_id)) [
    | inl same ↦ rw (chosen, same, elect_leader) led
    | inr other ↦
        rw (chosen, other, elect_leader)
          (λ j node found flag. marked-IsLed leader j c.nodes node found flag)
  ]
]

Step-IsLed : {c d : Cluster} → Step c d → IsLed c → IsLed d
unfolding distribute_goal shutdown get
Step-IsLed {c} (adding id addr dialed now) led = add_node-IsLed c id addr dialed now led
Step-IsLed {c} (removing id) led = remove_node-IsLed c id led
Step-IsLed {c} (electing order) led = elect_leader-IsLed c order led
Step-IsLed {c} (distributing hash order goal) led =
    IsPlaced-IsLed c (distribute_goal hash c order goal).0
      (place_routed-IsPlaced c goal (route_goal hash c order goal.id by_hash)) led
Step-IsLed {c} (replicating hash order goal factor) led =
    IsPlaced-IsLed c (replicate_goal hash c order goal factor).0
      (replicate_goal-IsPlaced c hash order goal factor) led
Step-IsLed {c} ending led = λ j node e flag. absurd (cc e)

-- After any calls on a new cluster only the node of the leader is marked as leader, so no two nodes
-- are.
pub Reach-IsLed : {c : Cluster} → Reach c → IsLed c
unfolding get
Reach-IsLed (fresh local_id addr now) = λ id node e flag. ground (arith, e, eq_iff local_id id)
Reach-IsLed (next r step) = Step-IsLed step (Reach-IsLed r)

-- What the loop of `ElectLeader` has found: the first of the nodes with most goals so far.
abbrev IsMost : GoMap Node → ℕ → Option String → Type 0
IsMost nodes n none = n ≡ 0
IsMost nodes n (some id) = (count_at nodes id ≡ n) × (0 < n)

most_goals-IsMost :
    (nodes : GoMap Node) (order : List String) (n : ℕ) (o : Option String)
    → IsMost nodes n o
    → (m : ℕ) × IsMost nodes m (most_goals nodes order n o)
      × (n ≤ m)
      × ((j : String) → contains j order ≡ true → count_at nodes j ≤ m)
unfolding most_goals contains
most_goals-IsMost nodes [] n o h = (n, h, omega arith, λ j c. absurd (cc c))
most_goals-IsMost nodes (id ∷ order) n o h = elim (Bool-cases (ltb n (count_at nodes id))) [
  | inl more ↦
      let (m, found, le, all) =
        most_goals-IsMost nodes order (count_at nodes id) (some id) (refl, ground (arith, more)) in
      rw (more, most_goals)
        (m, found, ground (arith, more, le), λ j c. ground (arith, c, all j, le, eq_iff id j))
  | inr less ↦
      let (m, found, le, all) = most_goals-IsMost nodes order n o h in
      rw (less, most_goals) (m, found, le, λ j c. ground (arith, c, all j, le, less, eq_iff id j))
]

leader_id-elect_leader :
    (c : Cluster) (order : List String) (leader : String)
    → most_goals c.nodes order 0 none ≡ some leader
    → (elect_leader c order).leader_id ≡ leader
unfolding elect_leader
leader_id-elect_leader c order leader chosen = elim (Bool-cases (leader == c.leader_id)) [
  | inl same ↦ rw (chosen, same, elect_leader) (sym ((eq_iff leader c.leader_id).0 same))
  | inr other ↦ rw (chosen, other, elect_leader) refl
]

is_some_of-count_at :
    (nodes : GoMap Node) (id : String) → 0 < count_at nodes id → is_some (get nodes id) ≡ true
is_some_of-count_at nodes id busy = elim (Option-cases (get nodes id)) [
  | inl missing ↦ absurd (omega (arith, rw (missing, count_at) at busy))
  | inr (node, there) ↦ rw there refl
]

-- After an election in a cluster in which some node has a goal, the leader is a node of the cluster,
-- and no node has more goals, in whatever order the nodes are visited.
pub elect_leader_most :
    (c : Cluster) (order : List String) (id j : String)
    → ((k : String) → contains k order ≡ is_some (get c.nodes k))
    → 0 < count_at c.nodes id
    → let leader = (elect_leader c order).leader_id in
      (is_some (get c.nodes leader) ≡ true) × (count_at c.nodes j ≤ count_at c.nodes leader)
unfolding elect_leader
elect_leader_most c order id j complete busy =
    let (m, found, le, all) = most_goals-IsMost c.nodes order 0 none refl in
    let within : (k : String) → count_at c.nodes k ≤ m = λ k. elim (Bool-cases (contains k order)) [
      | inl here ↦ all k here
      | inr away ↦ ground (arith, away, complete k, is_some_of-count_at c.nodes k)
    ] in
    elim (Option-cases (most_goals c.nodes order 0 none)) [
      | inl no_goals ↦ absurd (omega (arith, rw no_goals at found, within id, busy))
      | inr (leader, chosen) ↦
          let (most, some_goals) = rw chosen at found in
          rw (leader_id-elect_leader c order leader chosen) (
            is_some_of-count_at c.nodes leader (omega (arith, most, some_goals)),
            omega (arith, most, within j),
          )
    ]
