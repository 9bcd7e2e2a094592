-- ===== src/Planning/Analysis/Parallel.antt =====
-- The groups of goals that can run at one time.
use ugem.Prelude.{
  ℕ, ◌≡◌, refl, sym, ap, ◌∙◌, String, true, some, List, [], ◌∷◌, ◌++◌, GoMap, if◌then◌else◌, get,
  get-put, put, contains, length, is_some, eq_iff, arith, Option-cases, inl, inr,
}
use mathlib.Core.List.{append_assoc, append-nil, reverse}
use ugem.Types.{ok}
use ugem.Cycles.Sound.{contains_here, contains_later}
use ugem.Planning.{DependencyGraph, node_of}
use ugem.Planning.Accepted.{topological_sort_iff}
use ugem.Planning.Analysis.{
  GoalPlanner, level_of, level_loop, add_to_group, group_loop, members, group_sorted,
  get_execution_plan, find_parallelizable,
}
use ugem.Planning.Analysis.Edgeless.{
  IsFlat, flat-IsMirrored, Reach, Reach-IsPlain, get_execution_plan-reverse,
}

-- All goals have the level 0.
level_loop-flat :
    (g : DependencyGraph) (ids : List String) (levels : GoMap ℕ)
    → IsFlat g
    → ((id : String) → contains id ids ≡ true → is_some (get g.nodes id) ≡ true)
    → (levels' : GoMap ℕ) × (level_loop g.nodes ids levels ≡ ok levels')
      × ((id : String) → get levels' id ≡ (if contains id ids then some 0 else get levels id))
unfolding level_loop level_of node_of contains
level_loop-flat g [] levels flat known = (levels, refl, λ id. refl)
level_loop-flat g (id ∷ ids) levels flat known = elim (Option-cases (get g.nodes id)) [
  | inl missing ↦ absurd (ground (arith, missing, known id (contains_here id ids)))
  | inr (node, there) ↦
      let none_before : node.dependees ≡ [] = ground (arith, there, flat.alone id) in
      let (levels', e, all) =
        level_loop-flat g ids (put levels id 0) flat (λ j c. known j (contains_later j id ids c)) in
      (
        levels',
        rw (there, level_loop, none_before, level_of) e,
        λ j. ground (arith, all j, get-put levels id j 0, eq_iff id j),
      )
]

group_loop-more :
    (levels : GoMap ℕ) (order ids : List String)
    → ((id : String) → contains id order ≡ true → get levels id ≡ some 0)
    → group_loop levels order ((0, ids) ∷ []) ≡ (0, ids ++ order) ∷ []
unfolding group_loop add_to_group
group_loop-more levels [] ids all = ap (λ xs. (0, xs) ∷ []) (sym (append-nil ids))
group_loop-more levels (id ∷ order) ids all =
    rw (all id (contains_here id order), group_loop)
      (group_loop-more levels order (ids ++ id ∷ []) (λ j c. all j (contains_later j id order c))
        ∙ ap (λ xs. (0, xs) ∷ []) (append_assoc ids (id ∷ []) order))

-- all goals in one group, and no group where there is no goal
abbrev pub one_group : List String → List (List String)
one_group [] = []
one_group (id ∷ order) = (id ∷ order) ∷ []

group_loop-one_group :
    (levels : GoMap ℕ) (order : List String)
    → ((id : String) → contains id order ≡ true → get levels id ≡ some 0)
    → members (group_loop levels order []) ≡ one_group order
unfolding group_loop add_to_group members
group_loop-one_group levels [] all = refl
group_loop-one_group levels (id ∷ order) all =
    rw (all id (contains_here id order), group_loop)
      (ap members
        (group_loop-more levels order (id ∷ []) (λ j c. all j (contains_later j id order c))))

find_parallelizable-one_group :
    {p : GoalPlanner} (r : Reach p) (order level_order : List String)
    → ((id : String) → contains id order ≡ is_some (get p.graph.nodes id))
    → length order ≡ length p.graph.nodes
    → ((id : String) → contains id level_order ≡ is_some (get p.graph.nodes id))
    → find_parallelizable p order level_order ≡ some (ok (one_group level_order))
unfolding find_parallelizable group_sorted
find_parallelizable-one_group {p} r order level_order complete one_visit level_complete =
    let plain = Reach-IsPlain r in
    let sorted =
      topological_sort_iff p.graph order complete one_visit (flat-IsMirrored p.graph plain.flat)
        plain.flat.distinct in
    let (levels, e, all) =
      level_loop-flat p.graph order [] plain.flat (λ id c. sym (complete id) ∙ c) in
    let grouped =
      group_loop-one_group levels level_order
        (λ id c. ground (arith, all id, complete id, level_complete id, c)) in
    ground (arith, sorted, plain.flat.no_edge, e, grouped)

-- Whatever goals were added to a planner, and in whatever orders its maps are visited: its execution
-- plan is all of them in the reverse of the order in which the graph is visited, and
-- `FindParallelizable` puts all of them into one group, since no call gives them a dependency.
get_execution_plan-find_parallelizable :
    {p : GoalPlanner} (r : Reach p) (order level_order : List String)
    → ((id : String) → contains id order ≡ is_some (get p.graph.nodes id))
    → length order ≡ length p.graph.nodes
    → ((id : String) → contains id level_order ≡ is_some (get p.graph.nodes id))
    → (get_execution_plan p order ≡ some (ok (reverse order)))
      × (find_parallelizable p order level_order ≡ some (ok (one_group level_order)))
get_execution_plan-find_parallelizable r order level_order complete one_visit level_complete = (
  get_execution_plan-reverse r order complete one_visit,
  find_parallelizable-one_group r order level_order complete one_visit level_complete,
)
