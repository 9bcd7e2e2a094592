-- ===== src/Planning/Sorting.antt =====
-- `TopologicalSort`: it ends, and what it accepts.
use ugem.Prelude.{
  ℕ, zero, suc, ◌+◌, ◌≤◌, ◌≡◌, ◌≢◌, String, none, List, [], ◌∷◌, ◌++◌, GoMap, if◌then◌else◌, length,
  length-append, get, put, arith, Option-cases, inl, inr,
}
use ugem.Prelude.Int.{ℤ, pos, negsuc, ◌-ℤ◌, eqb_ℤ}
use ugem.Planning.{
  DependencyNode, DependencyGraph, degree_of, ready, lower, sort_loop, all_degrees,
  topological_sort,
}

-- 1 for a positive degree
abbrev is_pos : ℤ → ℕ
is_pos (pos (suc n)) = 1
is_pos _ = 0

positives : GoMap ℤ → ℕ
positives [] = 0
positives ((id, n) ∷ degrees) = is_pos n + positives degrees

positives-put :
    (degrees : GoMap ℤ) (id : String) (n : ℤ)
    → positives (put degrees id n) + is_pos (degree_of degrees id) ≡ positives degrees + is_pos n
unfolding positives put get
positives-put [] id n = omega arith
positives-put ((j, m) ∷ degrees) id n = ground (arith, positives-put degrees id n)

positives-le-length : (degrees : GoMap ℤ) → positives degrees ≤ length degrees
unfolding positives
positives-le-length [] = omega arith
positives-le-length ((id, pos zero) ∷ degrees) = omega (arith, positives-le-length degrees)
positives-le-length ((id, pos (suc n)) ∷ degrees) = omega (arith, positives-le-length degrees)
positives-le-length ((id, negsuc n) ∷ degrees) = omega (arith, positives-le-length degrees)

length-ready :
    (degrees : GoMap ℤ) (order : List String) → length (ready degrees order) ≤ length order
unfolding ready
length-ready degrees [] = omega arith
length-ready degrees (id ∷ order) = ground (arith, length-ready degrees order)

-- A name that joins the queue has lost its last positive degree.
lowered_once :
    (n : ℤ) → (if eqb_ℤ (n -ℤ pos 1) (pos 0) then 1 else 0) + is_pos (n -ℤ pos 1) ≤ is_pos n
unfolding ◌-ℤ◌
lowered_once (pos zero) = ground arith
lowered_once (pos (suc zero)) = ground arith
lowered_once (pos (suc (suc n))) = ground arith
lowered_once (negsuc n) = ground arith

lower_lem :
    (deps : List String) (degrees : GoMap ℤ) (queue : List String)
    → length (lower deps degrees queue).1 + positives (lower deps degrees queue).0
      ≤ length queue + positives degrees
unfolding lower
lower_lem [] degrees queue = omega arith
lower_lem (dep ∷ deps) degrees queue =
    let n = degree_of degrees dep -ℤ pos 1 in
    let queue' = if eqb_ℤ n (pos 0) then queue ++ dep ∷ [] else queue in
    grind (
      arith,
      lower_lem deps (put degrees dep n) queue',
      positives-put degrees dep n,
      lowered_once (degree_of degrees dep),
      length-append queue (dep ∷ []),
    )

sort_loop-ne-none :
    (nodes : GoMap DependencyNode) (fuel : ℕ) (degrees : GoMap ℤ) (queue result : List String)
    → length queue + positives degrees ≤ fuel
    → sort_loop nodes fuel degrees queue result ≢ none
unfolding sort_loop
sort_loop-ne-none nodes fuel degrees [] result room e = absurd (cc e)
sort_loop-ne-none nodes zero degrees (id ∷ queue) result room e = absurd (omega arith)
sort_loop-ne-none nodes (suc fuel) degrees (id ∷ queue) result room e =
    elim (Option-cases (get nodes id)) [
      | inl missing ↦ absurd (cc (rw (missing, sort_loop) at e))
      | inr (node, there) ↦
          let lowered = lower node.dependents degrees queue in
          sort_loop-ne-none nodes fuel lowered.0 lowered.1 (result ++ id ∷ [])
            (omega (arith, lower_lem node.dependents degrees queue, room))
            (rw (there, sort_loop) at e)
    ]

-- `TopologicalSort` ends on every graph, in whatever order the map of degrees is visited: the fuel of
-- the model, the length of the visit and the number of degrees, is never used up.
pub topological_sort-ne-none :
    (g : DependencyGraph) (order : List String) → topological_sort g order ≢ none
unfolding topological_sort
topological_sort-ne-none g order e =
    let degrees = all_degrees g in
    let ends =
      sort_loop-ne-none g.nodes (length order + length degrees) degrees (ready degrees order) []
        (omega (arith, length-ready degrees order, positives-le-length degrees)) in
    ground (arith, e, ends)
