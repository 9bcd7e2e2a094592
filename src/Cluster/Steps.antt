-- ===== src/Cluster/Steps.antt =====
-- The calls that change a cluster, and what each leaves.
use ugem.Prelude.{
  get_elem?, length, nat_eq, ◌%◌, ◌+◌, ℕ, zero, suc, ◌≡◌, refl, sym, ap, ◌∙◌, subst, String, Bool,
  true, false, Option, none, some, List, ◌==◌, if◌then◌else◌, ltb, get, get-put, get-delete, put,
  delete, eq_iff, arith, Bool-cases, Option-cases, inl, inr, ◌⊎◌,
}
use ugem.Types.{Error, Result, ok, err}
use ugem.Goal.{Goal}
use ugem.Cluster.{
  Node, Cluster, new_cluster, add_node, remove_node, elect_leader, signed_index, place_goal,
  place_routed, unless_panic, distribute_goal, replicate_loop, replicate_goal, shutdown,
}

-- One call of a method that changes the cluster.
pub data Step (c : Cluster) : Cluster → Type 0 where
  adding : (id addr : String) (dialed : Bool) (now : ℕ) → Step c (add_node c id addr dialed now).0
  removing : (id : String) → Step c (remove_node c id).0
  electing : (order : List String) → Step c (elect_leader c order)
  distributing :
      (hash : String → ℕ) (order : List String) (goal : Goal)
      → Step c (distribute_goal hash c order goal).0
  replicating :
      (hash : String → ℕ) (order : List String) (goal : Goal) (factor : ℕ)
      → Step c (replicate_goal hash c order goal factor).0
  ending : Step c (shutdown c)

pub data Reach : Cluster → Type 0 where
  fresh : (local_id addr : String) (now : ℕ) → Reach (new_cluster local_id addr now)
  next : {c d : Cluster} → Reach c → Step c d → Reach d

-- What `DistributeGoal` and `ReplicateGoal` change: the goals of some nodes.
pub record IsPlaced (c d : Cluster) : Type 0 where
  pub same_leader : d.leader_id ≡ c.leader_id
  pub same_local : d.local_id ≡ c.local_id
  pub came_from :
      (id : String) (node : Node)
      → get d.nodes id ≡ some node
      → (old : Node) × (get c.nodes id ≡ some old)
        × (node.is_leader ≡ old.is_leader)
        × (old.goals ≡ none → node.goals ≡ none)

IsPlaced-refl : (c : Cluster) → IsPlaced c c
IsPlaced-refl c = record {
  same_leader = refl;
  same_local = refl;
  came_from = λ id node e. (node, e, refl, λ h. h);
}

IsPlaced-trans : (b c d : Cluster) → IsPlaced b c → IsPlaced c d → IsPlaced b d
IsPlaced-trans b c d p q = record {
  same_leader = q.same_leader ∙ p.same_leader;
  same_local = q.same_local ∙ p.same_local;
  came_from = λ id node e.
      let (mid, there, flag, nil) = q.came_from id node e in
      let (old, there', flag', nil') = p.came_from id mid there in
      (old, there', flag ∙ flag', λ h. nil (nil' h));
}

place_goal-IsPlaced :
    (c : Cluster) (id : String) (goal : Goal) → IsPlaced c (place_goal c id goal).0
unfolding place_goal
place_goal-IsPlaced c id goal = elim (Option-cases (get c.nodes id)) [
  | inl missing ↦ rw (missing, place_goal) (IsPlaced-refl c)
  | inr (node, there) ↦ elim (Option-cases node.goals) [
    | inl nil ↦ rw (there, nil, place_goal) (IsPlaced-refl c)
    | inr (goals, some_map) ↦
        rw (there, some_map, place_goal)
          (record {
            same_leader = refl;
            same_local = refl;
            came_from = λ j n e. elim (Bool-cases (id == j)) [
              | inl same ↦
                  let new : Node = record node { goals = some (put goals goal.id goal) } in
                  let found : some n ≡ some new = sym e ∙ get-put c.nodes id j new ∙ rw same refl in
                  let it : n ≡ new = cc (found) in
                  (
                    node,
                    subst (λ k. get c.nodes k ≡ some node) ((eq_iff id j).0 same) there,
                    ap (λ (m : Node). m.is_leader) it,
                    λ h. absurd (cc (h, some_map)),
                  )
              | inr other ↦ (
                n,
                sym (
                      get-put c.nodes id j (record node { goals = some (put goals goal.id goal) })
                      ∙ rw other refl)
                    ∙ e,
                refl,
                λ h. h,
              )
            ];
          })
  ]
]

pub place_routed-IsPlaced :
    (c : Cluster) (goal : Goal) (routed : Result (Option String))
    → IsPlaced c (place_routed c goal routed).0
unfolding place_routed
place_routed-IsPlaced c goal (err e) = IsPlaced-refl c
place_routed-IsPlaced c goal (ok none) = IsPlaced-refl c
place_routed-IsPlaced c goal (ok (some id)) = place_goal-IsPlaced c id goal

unless_panic-IsPlaced :
    (c d : Cluster) (rest : Cluster × Option Error) (placed : Result String)
    → IsPlaced c d
    → IsPlaced c rest.0
    → IsPlaced c (unless_panic placed d rest).0
unfolding unless_panic
unless_panic-IsPlaced c d rest (err e) p q = p
unless_panic-IsPlaced c d rest (ok id) p q = q

replicate_loop-IsPlaced :
    (c : Cluster) (order : List String) (goal : Goal) (i left : ℕ)
    → IsPlaced c (replicate_loop c order goal i left).0
unfolding replicate_loop
replicate_loop-IsPlaced c order goal i zero = IsPlaced-refl c
replicate_loop-IsPlaced c order goal i (suc left) =
    elim (Option-cases (get_elem? order (i % length order))) [
      | inl missing ↦ rw (missing, replicate_loop) (IsPlaced-refl c)
      | inr (id, there) ↦
          let c' = (place_goal c id goal).0 in
          let here = place_goal-IsPlaced c id goal in
          let rest = replicate_loop c' order goal (i + 1) left in
          rw (there, replicate_loop)
            (unless_panic-IsPlaced c c' rest (place_goal c id goal).1 here (
              IsPlaced-trans c c' rest.0 here (replicate_loop-IsPlaced c' order goal (i + 1) left)))
    ]

pub replicate_goal-IsPlaced :
    (c : Cluster) (hash : String → ℕ) (order : List String) (goal : Goal) (factor : ℕ)
    → IsPlaced c (replicate_goal hash c order goal factor).0
unfolding replicate_goal
replicate_goal-IsPlaced c hash order goal factor = elim (Bool-cases (nat_eq (length c.nodes) 0)) [
  | inl e ↦ rw (e, replicate_goal) (IsPlaced-refl c)
  | inr e ↦ elim (Option-cases (signed_index (hash goal.id) (length c.nodes))) [
    | inl negative ↦ rw (e, negative, replicate_goal) (IsPlaced-refl c)
    | inr (start, from) ↦
        let m = length c.nodes in
        rw (e, from, replicate_goal)
          (replicate_loop-IsPlaced c order goal start (if ltb m factor then m else factor))
  ]
]

-- the node that `AddNode` makes
abbrev pub new_node : String → String → ℕ → Node
new_node id addr now = record {
  id = id;
  address = addr;
  is_leader = false;
  goals = none;
  connected = true;
  last_seen = now;
}

pub add_node_cases :
    (c : Cluster) (id addr : String) (dialed : Bool) (now : ℕ)
    → ((add_node c id addr dialed now).0 ≡ c)
      ⊎ ((add_node c id addr dialed now).0
          ≡ record c { nodes = put c.nodes id (new_node id addr now) })
unfolding add_node
add_node_cases c id addr dialed now = ground arith

pub remove_node_cases :
    (c : Cluster) (id : String)
    → ((remove_node c id).0 ≡ c) ⊎ ((remove_node c id).0 ≡ record c { nodes = delete c.nodes id })
unfolding remove_node
remove_node_cases c id = ground arith

-- A node is found where the maps of nodes tell it.
pub get_new :
    (c : Cluster) (id j : String) (new node : Node)
    → get (put c.nodes id new) j ≡ some node
    → (node ≡ new) ⊎ (get c.nodes j ≡ some node)
get_new c id j new node e = elim (Bool-cases (id == j)) [
  | inl same ↦ inl (ground (arith, e, same, get-put c.nodes id j new))
  | inr other ↦ inr (ground (arith, e, other, get-put c.nodes id j new))
]

pub get_left :
    (c : Cluster) (id j : String) (node : Node)
    → get (delete c.nodes id) j ≡ some node
    → get c.nodes j ≡ some node
get_left c id j node e = ground (arith, e, get-delete c.nodes id j)
