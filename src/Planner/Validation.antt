-- ===== src/Planner/Validation.antt =====
-- `Validate` against the cycles of the dependencies.
use ugem.Prelude.{
  ◌≡◌, ◌≢◌, refl, subst, String, true, some, List, [], ◌∷◌, GoMap, length, get, contains, arith,
  Option-cases, ◌⊎◌, inl, inr,
}
use ugem.Types.{Error, cyclic_dependency}
use ugem.Cycles.{no_marks, Outcome, exhausted, dfs, find_cycle}
use ugem.Cycles.Sound.{Edge, Trail, edge, join, Outcome-cases, find_cycle-IsJustified, IsJustified}
use ugem.Cycles.Complete.{IsSafe, safe, not_cyclic_of-IsSafe, find_cycle-IsSafe}
use ugem.Cycles.Fuel.{find_cycle-ne-exhausted}
use ugem.Planning.HasCycle.{contains-append}
use ugem.Planner.{
  Planner, neighbors, dependency_names, search_names, has_cyclic_dependency, validate,
}

-- From a name to one that it depends on, in one step or more.
abbrev pub Chain : Planner → String → String → Type 0
Chain p x y = Trail (neighbors p) x y

names_hold :
    (graph : GoMap (List String)) (x y : String) (deps : List String)
    → get graph x ≡ some deps
    → contains y deps ≡ true
    → contains y (dependency_names graph) ≡ true
unfolding dependency_names get contains
names_hold [] x y deps e c = absurd (cc e)
names_hold ((name, ds) ∷ graph) x y deps e c =
    ground (arith, e, c, names_hold graph x y deps, contains-append y ds (dependency_names graph))

dependency_names_complete :
    (p : Planner) (x y : String)
    → Edge (neighbors p) x y
    → contains y (dependency_names p.dependency_graph) ≡ true
unfolding contains
dependency_names_complete p x y (ys, e, c) = elim (Option-cases (get p.dependency_graph x)) [
  | inl none_there ↦ absurd (ground (arith, e, c, none_there))
  | inr (deps, there) ↦ names_hold p.dependency_graph x y deps there (ground (arith, e, c, there))
]

module _ (p : Planner) (order : List String) where
  abbrev outcome : Outcome
  outcome = find_cycle (dfs (neighbors p) (length (search_names p order))) order no_marks

  search_ends : outcome ≢ exhausted
  search_ends =
      find_cycle-ne-exhausted (neighbors p) (search_names p order) (length (search_names p order))
        order
        (λ x y c e. ground (
          arith,
          contains-append y order (dependency_names p.dependency_graph),
          dependency_names_complete p x y e,
        ))
        (λ x c. ground (arith, contains-append x order (dependency_names p.dependency_graph), c))
        (omega arith)

  IsSafe-along :
      (x y : String) → IsSafe (neighbors p) x → Trail (neighbors p) x y → IsSafe (neighbors p) y
  IsSafe-along x y (safe f) (edge {y = z} e) = f z e
  IsSafe-along x y (safe f) (join {y = z} e q) = IsSafe-along z y (f z e) q

  -- `Validate` misses no cycle: if an action that is registered depends, directly or by others, on a
  -- name that depends on itself, it returns the error, in whatever order the map is visited.
  pub validate_cycle :
      (x y : String)
      → contains x order ≡ true
      → (x ≡ y) ⊎ Chain p x y
      → Chain p y y
      → validate p order ≡ some cyclic_dependency
  unfolding validate has_cyclic_dependency
  validate_cycle x y c leads round = elim (Outcome-cases outcome) [
    | inl e ↦ absurd (search_ends e)
    | inr (inl (path, e)) ↦ ground (arith, e)
    | inr (inr (m, e)) ↦
        let s = find_cycle-IsSafe (neighbors p) (length (search_names p order)) order m x e c in
        elim leads [
          | inl same ↦
              absurd
                (not_cyclic_of-IsSafe (neighbors p) (subst (IsSafe (neighbors p)) same s) round)
          | inr q ↦ absurd (not_cyclic_of-IsSafe (neighbors p) (IsSafe-along x y s q) round)
        ]
  ]

  -- And it reports no cycle that is not there: if it returns an error, this is the one for a cycle, and
  -- some name depends on itself, directly or by others.
  validate_err :
      (e : Error)
      → validate p order ≡ some e
      → (e ≡ cyclic_dependency) × ((x : String) × Chain p x x)
  unfolding validate has_cyclic_dependency
  validate_err e said =
      let just =
        find_cycle-IsJustified (neighbors p) (length (search_names p order)) order (λ x y h. refl)
          (λ x h. refl) in
      elim (Outcome-cases outcome) [
        | inl o ↦ absurd (search_ends o)
        | inr (inl (path, o)) ↦ (ground (arith, o, said), subst (IsJustified (neighbors p)) o just)
        | inr (inr (m, o)) ↦ absurd (ground (arith, o, said))
      ]
