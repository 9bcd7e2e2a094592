-- ===== src/Planning/Accepted.antt =====
-- Which graphs `TopologicalSort` accepts.
use ugem.Prelude.{
  ℕ, zero, suc, ◌+◌, ◌≤◌, ◌<◌, ◌≡◌, refl, sym, ap, ◌∙◌, String, Bool, true, false, some, List, [],
  ◌∷◌, ◌++◌, GoMap, ◌==◌, if◌then◌else◌, nat_eq, length, get, put, get-put, contains, count,
  IsDistinct, is_some, eq_iff, eq_refl, All, arith, list_cases, Bool-cases, Option-cases, inl, inr,
}
use mathlib.Core.List.{append_assoc, append-nil}
use ugem.Prelude.Int.{ℤ, pos, ◌+ℤ◌}
use ugem.Types.{other, ok, err}
use ugem.Planning.{
  DependencyNode, DependencyGraph, node_of, degree_of, raise, raise_all, zero_degrees, ready, lower,
  sort_loop, all_degrees, check_length, topological_sort,
}
use ugem.Cycles.Sound.{contains_later}
use ugem.Planning.Mirror.{dependents_at, dependees_at, IsMirrored}

-- how many dependencies lead to a goal
total : String → GoMap DependencyNode → ℕ
total a [] = 0
total a ((id, node) ∷ nodes) = count a node.dependees + total a nodes

degree_of-raise :
    (deps : List String) (degrees : GoMap ℤ) (a : String) (n : ℕ)
    → degree_of degrees a ≡ pos n
    → degree_of (raise deps degrees) a ≡ pos (n + count a deps)
unfolding raise count ◌+ℤ◌
degree_of-raise [] degrees a n h = h ∙ ap pos (omega arith)
degree_of-raise (dep ∷ deps) degrees a n h =
    let d = degree_of degrees dep +ℤ pos 1 in
    degree_of-raise deps (put degrees dep d) a (n + (if dep == a then 1 else 0))
      (ground (arith, h, get-put degrees dep a d, eq_iff dep a))
    ∙ ap pos (omega arith)

degree_of-raise_all :
    (nodes : GoMap DependencyNode) (degrees : GoMap ℤ) (a : String) (n : ℕ)
    → degree_of degrees a ≡ pos n
    → degree_of (raise_all nodes degrees) a ≡ pos (n + total a nodes)
unfolding raise_all total
degree_of-raise_all [] degrees a n h = h ∙ ap pos (omega arith)
degree_of-raise_all ((id, node) ∷ nodes) degrees a n h =
    degree_of-raise_all nodes (raise node.dependees degrees) a (n + count a node.dependees)
      (degree_of-raise node.dependees degrees a n h)
    ∙ ap pos (omega arith)

degree_of-zero_degrees :
    (nodes : GoMap DependencyNode) (degrees : GoMap ℤ) (a : String)
    → degree_of degrees a ≡ pos 0
    → degree_of (zero_degrees nodes degrees) a ≡ pos 0
unfolding zero_degrees
degree_of-zero_degrees [] degrees a h = h
degree_of-zero_degrees ((id, node) ∷ nodes) degrees a h =
    degree_of-zero_degrees nodes (put degrees id (pos 0)) a
      (ground (arith, h, get-put degrees id a (pos 0)))

degree_of-all_degrees :
    (g : DependencyGraph) (a : String) → degree_of (all_degrees g) a ≡ pos (total a g.nodes)
unfolding get
degree_of-all_degrees g a =
    degree_of-raise_all g.nodes (zero_degrees g.nodes []) a 0
      (degree_of-zero_degrees g.nodes [] a refl)
    ∙ ap pos (omega arith)

count-dependees_at :
    (nodes : GoMap DependencyNode) (a b : String) → count a (dependees_at nodes b) ≤ total a nodes
unfolding total node_of get count
count-dependees_at [] a b = omega arith
count-dependees_at ((id, node) ∷ nodes) a b = ground (arith, count-dependees_at nodes a b)

nil_of_count : (xs : List String) → ((b : String) → count b xs ≡ 0) → xs ≡ []
unfolding count
nil_of_count [] h = refl
nil_of_count (x ∷ xs) h = absurd (ground (arith, h x, eq_refl x))

-- A goal on which none depends has no dependents.
dependents_at-nil :
    (nodes : GoMap DependencyNode) (a : String)
    → IsMirrored nodes
    → total a nodes ≡ 0
    → dependents_at nodes a ≡ []
dependents_at-nil nodes a h none_lead =
    nil_of_count (dependents_at nodes a)
      (λ b. omega (arith, h a b, count-dependees_at nodes a b, none_lead))

-- A queue of goals without dependents is the result.
sort_loop-quiet :
    (nodes : GoMap DependencyNode) (fuel : ℕ) (degrees : GoMap ℤ) (queue result : List String)
    → All (λ id. (is_some (get nodes id) ≡ true) × (dependents_at nodes id ≡ [])) queue
    → length queue ≤ fuel
    → sort_loop nodes fuel degrees queue result ≡ some (ok (result ++ queue))
unfolding sort_loop lower node_of
sort_loop-quiet nodes fuel degrees [] result quiet room =
    ap (λ xs. some (ok xs)) (sym (append-nil result))
sort_loop-quiet nodes zero degrees (id ∷ queue) result quiet room = absurd (omega arith)
sort_loop-quiet nodes (suc fuel) degrees (id ∷ queue) result quiet room =
    elim (Option-cases (get nodes id)) [
      | inl missing ↦ absurd (ground (arith, missing, quiet.0))
      | inr (node, there) ↦
          let none_there : node.dependents ≡ [] = ground (arith, there, quiet.0) in
          rw (there, sort_loop, none_there, lower)
            (sort_loop-quiet nodes fuel degrees queue (result ++ id ∷ []) quiet.1 (omega arith)
              ∙ ap (λ xs. some (ok xs)) (append_assoc result (id ∷ []) queue))
    ]

-- The goals that are visited and on which none depends.
unled : GoMap DependencyNode → List String → List String
unled nodes [] = []
unled nodes (id ∷ order) =
    (if nat_eq (total id nodes) 0 then id ∷ unled nodes order else unled nodes order)

ready_lem :
    (g : DependencyGraph) (order : List String) → ready (all_degrees g) order ≡ unled g.nodes order
unfolding ready unled
ready_lem g [] = refl
ready_lem g (id ∷ order) = ground (arith, ready_lem g order, degree_of-all_degrees g id)

unled-quiet :
    (nodes : GoMap DependencyNode) (order : List String)
    → IsMirrored nodes
    → All (λ id. is_some (get nodes id) ≡ true) order
    → All
        (λ id. (is_some (get nodes id) ≡ true) × (dependents_at nodes id ≡ []))
        (unled nodes order)
unfolding unled
unled-quiet nodes [] h known = tt
unled-quiet nodes (id ∷ order) h known = elim (Bool-cases (nat_eq (total id nodes) 0)) [
  | inl none_lead ↦ rw none_lead (
    (known.0, dependents_at-nil nodes id h (ground (arith, none_lead))),
    unled-quiet nodes order h known.1,
  )
  | inr led ↦ rw led (unled-quiet nodes order h known.1)
]

length-unled :
    (nodes : GoMap DependencyNode) (order : List String) → length (unled nodes order) ≤ length order
unfolding unled
length-unled nodes [] = omega arith
length-unled nodes (id ∷ order) = ground (arith, length-unled nodes order)

unled_missing :
    (nodes : GoMap DependencyNode) (order : List String) (d : String)
    → contains d order ≡ true
    → 0 < total d nodes
    → length (unled nodes order) < length order
unfolding unled contains
unled_missing nodes [] d c led = absurd (cc c)
unled_missing nodes (id ∷ order) d c led =
    ground (arith, eq_iff id d, c, led, unled_missing nodes order d, length-unled nodes order)

-- whether some goal depends on another
unfoldable pub has_edge : GoMap DependencyNode → Bool
has_edge [] = false
has_edge ((id, node) ∷ nodes) = elim node.dependees [ [] ↦ has_edge nodes | d ∷ ds ↦ true ]

total_of-has_edge-false :
    (nodes : GoMap DependencyNode) (a : String) → has_edge nodes ≡ false → total a nodes ≡ 0
unfolding total has_edge count
total_of-has_edge-false [] a h = refl
total_of-has_edge-false ((id, node) ∷ nodes) a h =
    ground (arith, h, total_of-has_edge-false nodes a)

unled-all :
    (nodes : GoMap DependencyNode) (order : List String)
    → has_edge nodes ≡ false
    → unled nodes order ≡ order
unfolding unled
unled-all nodes [] h = refl
unled-all nodes (id ∷ order) h =
    ground (arith, total_of-has_edge-false nodes id h, unled-all nodes order h)

abbrev Edge : GoMap DependencyNode → Type 0
Edge nodes = (id : String) × (d : String) × (0 < count d (dependees_at nodes id))

Edge-of-has_edge :
    (nodes : GoMap DependencyNode) → IsDistinct nodes → has_edge nodes ≡ true → Edge nodes
unfolding has_edge get count node_of
Edge-of-has_edge [] u h = absurd (cc h)
Edge-of-has_edge ((id, node) ∷ nodes) u h = elim (list_cases node.dependees) [
  | inl none_there ↦
      let (j, d, more) = Edge-of-has_edge nodes u.1 (ground (arith, h, none_there)) in
      (j, d, ground (arith, more, u.0, eq_iff id j))
  | inr (d, ds, e) ↦ (id, d, ground (arith, e, eq_refl id, eq_refl d))
]

known_end :
    (nodes : GoMap DependencyNode) (id d : String)
    → IsMirrored nodes
    → 0 < count d (dependees_at nodes id)
    → is_some (get nodes d) ≡ true
unfolding node_of count
known_end nodes id d h more = elim (Option-cases (get nodes d)) [
  | inl missing ↦ absurd (ground (arith, missing, h d id, more))
  | inr (n, there) ↦ ground (arith, there)
]

module _ (g : DependencyGraph) (order : List String)
    (complete : (id : String) → contains id order ≡ is_some (get g.nodes id))
    (one_visit : length order ≡ length g.nodes) (mirrored : IsMirrored g.nodes)
    (distinct : IsDistinct g.nodes) where
  known :
      (ids : List String)
      → ((id : String) → contains id ids ≡ true → contains id order ≡ true)
      → All (λ id. is_some (get g.nodes id) ≡ true) ids
  unfolding contains
  known [] within = tt
  known (id ∷ ids) within = (
    ground (arith, complete id, within id, eq_refl id),
    known ids (λ x c. within x (contains_later x id ids c)),
  )

  topological_sort_lem :
      topological_sort g order ≡ some (check_length (length g.nodes) (ok (unled g.nodes order)))
  unfolding topological_sort
  topological_sort_lem =
      let quiet = unled-quiet g.nodes order mirrored (known order (λ x c. c)) in
      let degrees = all_degrees g in
      let sorted =
        sort_loop-quiet g.nodes (length order + length degrees) degrees (unled g.nodes order) []
          quiet (omega (arith, length-unled g.nodes order)) in
      ground (arith, ready_lem g order, sorted)

  -- On a graph whose dependencies are mirrored: `TopologicalSort` gives the goals, in the order of its
  -- visit, if no goal depends on another, and otherwise the error that the graph has cycles.
  pub topological_sort_iff :
      topological_sort g order
      ≡ some (if has_edge g.nodes then err (other "graph has cycles") else ok order)
  unfolding check_length
  topological_sort_iff = elim (Bool-cases (has_edge g.nodes)) [
    | inl some_edge ↦
        let (id, d, more) = Edge-of-has_edge g.nodes distinct some_edge in
        ground (
          arith,
          topological_sort_lem,
          some_edge,
          one_visit,
          unled_missing g.nodes order d (complete d ∙ known_end g.nodes id d mirrored more)
              (omega (arith, more, count-dependees_at g.nodes d id)),
        )
    | inr no_edge ↦
        ground (arith, topological_sort_lem, no_edge, one_visit, unled-all g.nodes order no_edge)
  ]
