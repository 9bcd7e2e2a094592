-- ===== src/Planning/Mirror/Removing.antt =====
-- Each dependency stands at both of its ends: the call that removes a goal.
use ugem.Prelude.{
  ◌-◌, ◌≡◌, ◌∙◌, String, List, [], ◌∷◌, GoMap, ◌==◌, if◌then◌else◌, get, delete, get-put,
  get-delete, count, count-remove_first, remove_first, eq_iff, arith, Option-cases, inl, inr, ◌⊎◌,
}
use ugem.Planning.{
  DependencyNode, DependencyGraph, node_of, drop_dependee, drop_dependees, drop_dependent,
  drop_dependents, remove_node,
}
use ugem.Planning.Mirror.{dependents_at, dependees_at, IsMirrored}

-- What the two loops of `RemoveNode` change.
drop_dependee_lem :
    (nodes : GoMap DependencyNode) (dep id j x : String)
    → (count x (dependees_at (drop_dependee nodes dep id) j)
        ≡ count x (dependees_at nodes j) - (if dep == j then (if id == x then 1 else 0) else 0))
      × (dependents_at (drop_dependee nodes dep id) j ≡ dependents_at nodes j)
unfolding drop_dependee node_of count
drop_dependee_lem nodes dep id j x = elim (Option-cases (get nodes dep)) [
  | inl none_there ↦ ground (arith, none_there, eq_iff dep j)
  | inr (n, there) ↦ ground (
    arith,
    there,
    eq_iff dep j,
    get-put nodes dep j (record n { dependees = remove_first id n.dependees }),
    count-remove_first id x n.dependees,
  )
]

drop_dependees_lem :
    (nodes : GoMap DependencyNode) (deps : List String) (id j x : String)
    → (count x (dependees_at (drop_dependees nodes deps id) j)
        ≡ count x (dependees_at nodes j) - (if id == x then count j deps else 0))
      × (dependents_at (drop_dependees nodes deps id) j ≡ dependents_at nodes j)
unfolding drop_dependees count
drop_dependees_lem nodes [] id j x = ground arith
drop_dependees_lem nodes (dep ∷ deps) id j x =
    let (a, b) = drop_dependee_lem nodes dep id j x in
    let (p, q) = drop_dependees_lem (drop_dependee nodes dep id) deps id j x in
    (ground (arith, a, p), q ∙ b)

drop_dependent_lem :
    (nodes : GoMap DependencyNode) (dep id j x : String)
    → (count x (dependents_at (drop_dependent nodes dep id) j)
        ≡ count x (dependents_at nodes j) - (if dep == j then (if id == x then 1 else 0) else 0))
      × (dependees_at (drop_dependent nodes dep id) j ≡ dependees_at nodes j)
unfolding drop_dependent node_of count
drop_dependent_lem nodes dep id j x = elim (Option-cases (get nodes dep)) [
  | inl none_there ↦ ground (arith, none_there, eq_iff dep j)
  | inr (n, there) ↦ ground (
    arith,
    there,
    eq_iff dep j,
    get-put nodes dep j (record n { dependents = remove_first id n.dependents }),
    count-remove_first id x n.dependents,
  )
]

drop_dependents_lem :
    (nodes : GoMap DependencyNode) (deps : List String) (id j x : String)
    → (count x (dependents_at (drop_dependents nodes deps id) j)
        ≡ count x (dependents_at nodes j) - (if id == x then count j deps else 0))
      × (dependees_at (drop_dependents nodes deps id) j ≡ dependees_at nodes j)
unfolding drop_dependents count
drop_dependents_lem nodes [] id j x = ground arith
drop_dependents_lem nodes (dep ∷ deps) id j x =
    let (a, b) = drop_dependent_lem nodes dep id j x in
    let (p, q) = drop_dependents_lem (drop_dependent nodes dep id) deps id j x in
    (ground (arith, a, p), q ∙ b)

node_of-delete :
    (nodes : GoMap DependencyNode) (id j : String)
    → node_of (delete nodes id) j ≡ (
        if id == j
        then record { goal_id = j; dependents = []; dependees = [] }
        else node_of nodes j)
unfolding node_of
node_of-delete nodes id j = ground (arith, get-delete nodes id j)

remove_node_cases :
    (g : DependencyGraph) (id : String)
    → ((remove_node g id).0 ≡ g)
      ⊎ ((remove_node g id).0.nodes
          ≡ delete
              (drop_dependents
                (drop_dependees g.nodes (dependents_at g.nodes id) id)
                (dependees_at (drop_dependees g.nodes (dependents_at g.nodes id) id) id)
                id)
              id)
unfolding remove_node node_of
remove_node_cases g id = ground arith

pub remove_node-IsMirrored :
    (g : DependencyGraph) (id : String) → IsMirrored g.nodes → IsMirrored (remove_node g id).0.nodes
unfolding count
remove_node-IsMirrored g id h a b = elim (remove_node_cases g id) [
  | inl same ↦ rw same (h a b)
  | inr e ↦
      let n1 = drop_dependees g.nodes (dependents_at g.nodes id) id in
      let n2 = drop_dependents n1 (dependees_at n1 id) id in
      rw e (
        ground (
          arith,
          h a b,
          h id b,
          h a id,
          node_of-delete n2 id a,
          node_of-delete n2 id b,
          drop_dependees_lem g.nodes (dependents_at g.nodes id) id a b,
          drop_dependees_lem g.nodes (dependents_at g.nodes id) id b a,
          drop_dependees_lem g.nodes (dependents_at g.nodes id) id id a,
          drop_dependents_lem n1 (dependees_at n1 id) id a b,
          drop_dependents_lem n1 (dependees_at n1 id) id b a,
          eq_iff id a,
          eq_iff id b,
        ))
]
