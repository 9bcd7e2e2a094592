-- ===== src/Cluster/Placement.antt =====
-- Where the goals of a cluster can be placed.
use ugem.Prelude.{
  ℕ, ◌≡◌, refl, sym, ap, ◌∙◌, String, false, none, some, List, ◌==◌, get, eq_iff, arith, Bool-cases,
  Option-cases, inl, inr, ◌⊎◌,
}
use ugem.Types.{panic, ok, err}
use ugem.Goal.{Goal}
use ugem.Cluster.{
  Node, Cluster, mark_leader, elect_leader, most_goals, place_goal, place_routed, route_goal,
  by_hash, distribute_goal, replicate_goal, shutdown,
}
use ugem.Cluster.Steps.{
  Step, adding, removing, electing, distributing, replicating, ending, Reach, fresh, next, IsPlaced,
  place_routed-IsPlaced, replicate_goal-IsPlaced, new_node, add_node_cases, remove_node_cases,
  get_new, get_left,
}
use ugem.Cluster.Leader.{get-mark_leader}

-- Every node but the local one has a nil map of goals.
abbrev pub IsBare : Cluster → Type 0
IsBare c =
    (id : String) (node : Node)
    → get c.nodes id ≡ some node
    → (id == c.local_id) ≡ false
    → node.goals ≡ none

IsPlaced-IsBare : (c d : Cluster) → IsPlaced c d → IsBare c → IsBare d
IsPlaced-IsBare c d p bare id node e away =
    let (old, there, same, nil) = p.came_from id node e in
    nil (bare id old there (ap (λ l. id == l) (sym p.same_local) ∙ away))

elect_leader_cases :
    (c : Cluster) (order : List String)
    → (elect_leader c order ≡ c)
      ⊎ ((leader : String) × (elect_leader c order
            ≡ record c { nodes = mark_leader leader c.nodes; leader_id = leader }))
unfolding elect_leader
elect_leader_cases c order = elim (Option-cases (most_goals c.nodes order 0 none)) [
  | inl no_goals ↦ rw (no_goals, elect_leader) (inl refl)
  | inr (leader, chosen) ↦ elim (Bool-cases (leader == c.leader_id)) [
    | inl same ↦ rw (chosen, same, elect_leader) (inl refl)
    | inr other ↦ rw (chosen, other, elect_leader) (inr (leader, refl))
  ]
]

Step-IsBare : {c d : Cluster} → Step c d → IsBare c → IsBare d
unfolding distribute_goal shutdown get
Step-IsBare {c} (adding id addr dialed now) bare = elim (add_node_cases c id addr dialed now) [
  | inl same ↦ rw same bare
  | inr e ↦ rw e (λ j node found away. elim (get_new c id j (new_node id addr now) node found) [
    | inl it ↦ ap (λ (n : Node). n.goals) it
    | inr there ↦ bare j node there away
  ])
]
Step-IsBare {c} (removing id) bare = elim (remove_node_cases c id) [
  | inl same ↦ rw same bare
  | inr e ↦ rw e (λ j node found away. bare j node (get_left c id j node found) away)
]
Step-IsBare {c} (electing order) bare = elim (elect_leader_cases c order) [
  | inl same ↦ rw same bare
  | inr (leader, e) ↦ rw e (λ j node found away. elim (Option-cases (get c.nodes j)) [
    | inl missing ↦ absurd (ground (arith, found, get-mark_leader leader j c.nodes, missing))
    | inr (old, there) ↦
        ground (arith, found, get-mark_leader leader j c.nodes, there, bare j old there away)
  ])
]
Step-IsBare {c} (distributing hash order goal) bare =
    IsPlaced-IsBare c (distribute_goal hash c order goal).0
      (place_routed-IsPlaced c goal (route_goal hash c order goal.id by_hash)) bare
Step-IsBare {c} (replicating hash order goal factor) bare =
    IsPlaced-IsBare c (replicate_goal hash c order goal factor).0
      (replicate_goal-IsPlaced c hash order goal factor) bare
Step-IsBare {c} ending bare = λ j node e away. absurd (cc e)

Reach-IsBare : {c : Cluster} → Reach c → IsBare c
unfolding get
Reach-IsBare (fresh local_id addr now) =
    λ id node e away. absurd (ground (arith, e, away, eq_iff local_id id, eq_iff id local_id))
Reach-IsBare (next r step) = Step-IsBare step (Reach-IsBare r)

-- After any calls on a new cluster: `DistributeGoal` panics and places nothing whenever the goal is
-- routed to another node than the local one, since `AddNode` leaves the map of goals nil.
distribute_goal_panics :
    {c : Cluster} (r : Reach c) (hash : String → ℕ) (order : List String) (goal : Goal)
    (id : String)
    → route_goal hash c order goal.id by_hash ≡ ok (some id)
    → (id == c.local_id) ≡ false
    → distribute_goal hash c order goal ≡ (c, err panic)
unfolding distribute_goal place_routed place_goal
distribute_goal_panics {c} r hash order goal id routed away =
    ap (place_routed c goal) routed ∙ elim (Option-cases (get c.nodes id)) [
      | inl missing ↦ rw (missing, place_goal) refl
      | inr (node, there) ↦ rw (there, Reach-IsBare r id node there away, place_goal) refl
    ]
