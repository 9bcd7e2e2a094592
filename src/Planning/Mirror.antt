-- ===== src/Planning/Mirror.antt =====
-- Each dependency stands at both of its ends, as often at the one as at the other: the calls that add.
pub mod Removing
pub mod Calls
use ugem.Prelude.{
  ◌+◌, ◌-◌, ◌≡◌, refl, ap, ◌∙◌, String, true, false, none, List, [], ◌∷◌, ◌++◌, GoMap, ◌==◌,
  if◌then◌else◌, get, put, delete, get-put, get-delete, contains, count, count-append,
  count-singleton, count-remove_first, remove_first, is_some, eq_iff, All, arith, Bool-cases,
  Option-cases, inl, inr, ◌⊎◌,
}
use ugem.Planning.{
  DependencyNode, DependencyGraph, new_dependency_graph, node_of, note_dependent, note_dependents,
  add_node, ensure, add_dependency, drop_dependee, drop_dependees, drop_dependent, drop_dependents,
  remove_node,
}

abbrev pub dependents_at : GoMap DependencyNode → String → List String
dependents_at nodes id = (node_of nodes id).dependents

abbrev pub dependees_at : GoMap DependencyNode → String → List String
dependees_at nodes id = (node_of nodes id).dependees

-- A name that is no node has no dependencies, so the graph names nodes only.
abbrev pub IsMirrored : GoMap DependencyNode → Type 0
IsMirrored nodes = (a b : String) → count b (dependents_at nodes a) ≡ count a (dependees_at nodes b)

pub node_of-put :
    (nodes : GoMap DependencyNode) (k j : String) (n : DependencyNode)
    → node_of (put nodes k n) j ≡ (if k == j then n else node_of nodes j)
unfolding node_of
node_of-put nodes k j n = ground (arith, get-put nodes k j n)

node_of-ensure :
    (nodes : GoMap DependencyNode) (k j : String) → node_of (ensure nodes k) j ≡ node_of nodes j
node_of-ensure nodes k j = elim (Bool-cases (k == j)) [
  | inl same ↦
      rw (node_of-put nodes k j (node_of nodes k), same) (ap (node_of nodes) ((eq_iff k j).0 same))
  | inr other_one ↦ rw (node_of-put nodes k j (node_of nodes k), other_one)
]

pub add_dependency-IsMirrored :
    (g : DependencyGraph) (from to : String)
    → IsMirrored g.nodes
    → IsMirrored (add_dependency g from to).nodes
unfolding add_dependency
add_dependency-IsMirrored g from to h a b =
    let n1 = ensure (ensure g.nodes from) to in
    let from_node : DependencyNode = record (node_of n1 from) {
      dependees = dependees_at n1 from ++ to ∷ [];
    } in
    let n2 = put n1 from from_node in
    let to_node : DependencyNode = record (node_of n2 to) {
      dependents = dependents_at n2 to ++ from ∷ [];
    } in
    let base : (j : String) → node_of n1 j ≡ node_of g.nodes j =
      λ j. node_of-ensure (ensure g.nodes from) to j ∙ node_of-ensure g.nodes from j in
    ground (
      arith,
      h a b,
      base a,
      base b,
      base from,
      base to,
      node_of-put n1 from a from_node,
      node_of-put n1 from b from_node,
      node_of-put n1 from to from_node,
      node_of-put n2 to a to_node,
      node_of-put n2 to b to_node,
      count-append b (dependents_at n2 to) (from ∷ []),
      count-singleton from b,
      count-append a (dependees_at n1 from) (to ∷ []),
      count-singleton to a,
      eq_iff from a,
      eq_iff from b,
      eq_iff to a,
      eq_iff to b,
      eq_iff from to,
    )

count_of-contains-false : (x : String) (xs : List String) → contains x xs ≡ false → count x xs ≡ 0
unfolding contains count
count_of-contains-false x [] h = refl
count_of-contains-false x (y ∷ xs) h = ground (arith, count_of-contains-false x xs, h)

-- What the loop of `AddNode` changes.
note_dependent_lem :
    (nodes : GoMap DependencyNode) (dep id j x : String)
    → is_some (get nodes dep) ≡ true
    → (count x (dependents_at (note_dependent nodes dep id) j)
        ≡ count x (dependents_at nodes j) + (if dep == j then (if id == x then 1 else 0) else 0))
      × (dependees_at (note_dependent nodes dep id) j ≡ dependees_at nodes j)
      × (is_some (get (note_dependent nodes dep id) j) ≡ is_some (get nodes j))
unfolding note_dependent node_of
note_dependent_lem nodes dep id j x known = elim (Option-cases (get nodes dep)) [
  | inl none_there ↦ absurd (ground (arith, none_there, known))
  | inr (n, there) ↦ ground (
    arith,
    there,
    eq_iff dep j,
    get-put nodes dep j (record n { dependents = n.dependents ++ id ∷ [] }),
    count-append x n.dependents (id ∷ []),
    count-singleton id x,
  )
]

note_dependents_lem :
    (nodes : GoMap DependencyNode) (deps : List String) (id j x : String)
    → All (λ dep. is_some (get nodes dep) ≡ true) deps
    → (count x (dependents_at (note_dependents nodes deps id) j)
        ≡ count x (dependents_at nodes j) + (if id == x then count j deps else 0))
      × (dependees_at (note_dependents nodes deps id) j ≡ dependees_at nodes j)
      × (is_some (get (note_dependents nodes deps id) j) ≡ is_some (get nodes j))
unfolding note_dependents count
note_dependents_lem nodes [] id j x known = ground arith
note_dependents_lem nodes (dep ∷ deps) id j x known =
    let nodes' = note_dependent nodes dep id in
    let (a, b, c) = note_dependent_lem nodes dep id j x known.0 in
    let (p, q, r) = note_dependents_lem nodes' deps id j x (still deps known.1) in
    (ground (arith, a, p), q ∙ b, r ∙ c)
  where
    still :
        (ds : List String)
        → All (λ d. is_some (get nodes d) ≡ true) ds
        → All (λ d. is_some (get (note_dependent nodes dep id) d) ≡ true) ds
    still [] k = tt
    still (d ∷ ds) k = ((note_dependent_lem nodes dep id d x known.0).2 ∙ k.0, still ds k.1)

not_in_known :
    (nodes : GoMap DependencyNode) (deps : List String) (id : String)
    → get nodes id ≡ none
    → All (λ dep. is_some (get nodes dep) ≡ true) deps
    → count id deps ≡ 0
unfolding count
not_in_known nodes [] id fresh known = refl
not_in_known nodes (dep ∷ deps) id fresh known =
    ground (arith, eq_iff dep id, known.0, fresh, not_in_known nodes deps id fresh known.1)

at_missing :
    (nodes : GoMap DependencyNode) (id : String)
    → get nodes id ≡ none
    → (dependents_at nodes id ≡ []) × (dependees_at nodes id ≡ [])
unfolding node_of
at_missing nodes id fresh = ground (arith, fresh)

add_node_cases :
    (g : DependencyGraph) (id : String) (deps : List String)
    → ((add_node g id deps).0 ≡ g)
      ⊎ ((get g.nodes id ≡ none)
          × ((add_node g id deps).0.nodes
              ≡ put
                  (note_dependents g.nodes deps id)
                  id
                  (record { goal_id = id; dependents = []; dependees = deps })))
unfolding add_node
add_node_cases g id deps = ground arith

pub add_node-IsMirrored :
    (g : DependencyGraph) (id : String) (deps : List String)
    → All (λ dep. is_some (get g.nodes dep) ≡ true) deps
    → IsMirrored g.nodes
    → IsMirrored (add_node g id deps).0.nodes
unfolding count
add_node-IsMirrored g id deps known h a b = elim (add_node_cases g id deps) [
  | inl same ↦ rw same (h a b)
  | inr (fresh, e) ↦
      let nodes = note_dependents g.nodes deps id in
      let new : DependencyNode = record { goal_id = id; dependents = []; dependees = deps } in
      let missing = at_missing g.nodes id fresh in
      rw e (
        ground (
          arith,
          h a b,
          h id b,
          h a id,
          missing,
          not_in_known g.nodes deps id fresh known,
          node_of-put nodes id a new,
          node_of-put nodes id b new,
          note_dependents_lem g.nodes deps id a b known,
          note_dependents_lem g.nodes deps id b a known,
          eq_iff id a,
          eq_iff id b,
        ))
]
