-- ===== src/Planning/HasCycle.antt =====
-- `HasCycle` against the cycles of the graph.
use ugem.Prelude.{
  ◌≡◌, ◌≢◌, ◌↔◌, refl, sym, subst, ◌∙◌, String, true, false, ◌||◌, List, [], ◌∷◌, ◌++◌, GoMap, ◌==◌,
  length, get, contains, is_some, eq_iff, eq_refl, arith, Bool-cases, ◌⊎◌, inl, inr,
}
use ugem.Cycles.{no_marks, Outcome, exhausted, dfs, find_cycle, walk, finish, without}
use ugem.Cycles.Sound.{Edge, Trail, edge, join, IsJustified, Outcome-cases, find_cycle-IsJustified}
use ugem.Cycles.Complete.{IsSafe, safe, not_cyclic_of-IsSafe, find_cycle-IsSafe}
use ugem.Cycles.Fuel.{find_cycle-ne-exhausted}
use ugem.Planning.{DependencyNode, DependencyGraph, dependees_of, names, has_cycle}

pub contains-append :
    (x : String) (xs ys : List String) → contains x (xs ++ ys) ≡ (contains x xs || contains x ys)
unfolding contains
contains-append x [] ys = refl
contains-append x (y ∷ xs) ys = ground (arith, contains-append x xs ys)

-- From a goal to one that it depends on, in one step and in one step or more.
abbrev pub DependsOn : DependencyGraph → String → String → Type 0
DependsOn g x y = Edge (dependees_of g.nodes) x y

abbrev pub Chain : DependencyGraph → String → String → Type 0
Chain g x y = Trail (dependees_of g.nodes) x y

names_hold :
    (nodes : GoMap DependencyNode) (x y : String)
    → Edge (dependees_of nodes) x y
    → contains y (names nodes) ≡ true
unfolding names contains get
names_hold [] x y (ys, e, c) = absurd (cc e)
names_hold ((id, node) ∷ nodes) x y (ys, e, c) = elim (Bool-cases (id == x)) [
  | inl same ↦ ground (arith, same, e, c, contains-append y node.dependees (names nodes))
  | inr other ↦ ground (
    arith,
    names_hold nodes x y (ys, ground (arith, other, e), c),
    contains-append y node.dependees (names nodes),
  )
]

names_hold_nodes :
    (nodes : GoMap DependencyNode) (x : String)
    → is_some (get nodes x) ≡ true
    → contains x (names nodes) ≡ true
unfolding names contains get
names_hold_nodes [] x h = absurd (cc h)
names_hold_nodes ((id, node) ∷ nodes) x h =
    ground (arith, names_hold_nodes nodes x, contains-append x node.dependees (names nodes), h)

module _ (g : DependencyGraph) (order : List String)
    (complete : (id : String) → contains id order ≡ is_some (get g.nodes id)) where
  abbrev outcome : Outcome
  outcome = find_cycle (dfs (dependees_of g.nodes) (length (names g.nodes))) order no_marks

  pub search_ends : outcome ≢ exhausted
  search_ends =
      find_cycle-ne-exhausted (dependees_of g.nodes) (names g.nodes) (length (names g.nodes)) order
        (λ x y c e. names_hold g.nodes x y e)
        (λ x c. names_hold_nodes g.nodes x (sym (complete x) ∙ c)) (omega arith)

  node_of_edge : (x y : String) → DependsOn g x y → contains x order ≡ true
  node_of_edge x y (ys, e, c) = ground (arith, complete x, e)

  node_of_path : (x y : String) → Chain g x y → contains x order ≡ true
  node_of_path x y (edge {y = z} e) = node_of_edge x z e
  node_of_path x y (join {y = z} e p) = node_of_edge x z e

  -- `HasCycle` answers yes exactly if some goal depends on itself, directly or by others, in
  -- whatever order the map is visited. Every goal that one depends on is to be a node.
  pub has_cycle_iff :
      ((x y : String) → DependsOn g x y → is_some (get g.nodes y) ≡ true)
      → ((has_cycle g order).0 ≡ true) ↔ ((x : String) × Chain g x x)
  unfolding has_cycle
  has_cycle_iff closed = (sound, found)
    where
      sound : (has_cycle g order).0 ≡ true → (x : String) × Chain g x x
      sound yes_said =
          let just =
            find_cycle-IsJustified (dependees_of g.nodes) (length (names g.nodes)) order
              (λ x y e. ground (arith, closed x y e)) (λ x c. ground (arith, complete x, c)) in
          elim (Outcome-cases outcome) [
            | inl e ↦ absurd (search_ends e)
            | inr (inl (path, e)) ↦ subst (IsJustified (dependees_of g.nodes)) e just
            | inr (inr (m, e)) ↦ absurd (ground (arith, e, yes_said))
          ]

      found : (x : String) × Chain g x x → (has_cycle g order).0 ≡ true
      found (x, p) = elim (Outcome-cases outcome) [
        | inl e ↦ absurd (search_ends e)
        | inr (inl (path, e)) ↦ ground (arith, e)
        | inr (inr (m, e)) ↦ absurd (
            not_cyclic_of-IsSafe (dependees_of g.nodes)
              (find_cycle-IsSafe (dependees_of g.nodes) (length (names g.nodes)) order m x e
                (node_of_path x x p))
              p)
      ]

-- Two goals that depend on a third which is no node of the graph.
abbrev pub shared_missing : String → String → String → DependencyGraph
shared_missing a b x = record {
  nodes =
      (a, record { goal_id = a; dependents = []; dependees = x ∷ [] })
      ∷ (b, record { goal_id = b; dependents = []; dependees = x ∷ [] })
      ∷ [];
}

edges_of_shared :
    (a b x y z : String)
    → DependsOn (shared_missing a b x) y z
    → (z ≡ x) × (((y == a) ≡ true) ⊎ ((y == b) ≡ true))
unfolding get contains
edges_of_shared a b x y z (ys, e, c) =
    ground (arith, e, c, eq_iff a y, eq_iff b y, eq_iff y a, eq_iff y b, eq_iff x z)

-- `HasCycle` leaves a dependee that is no node marked as being visited, so two goals that depend on
-- the same unknown goal are reported as a cycle, though nothing depends on itself.
missing_dependee_is_cycle :
    (a b x : String)
    → (a == b) ≡ false
    → (x == a) ≡ false
    → (x == b) ≡ false
    → ((has_cycle (shared_missing a b x) (a ∷ b ∷ [])).0 ≡ true)
      × ((y : String) → Chain (shared_missing a b x) y y → ⊥)
unfolding has_cycle names find_cycle dfs walk finish without contains get
missing_dependee_is_cycle a b x ab xa xb = (
  ground (
    arith,
    ab,
    xa,
    xb,
    eq_iff a b,
    eq_iff b a,
    eq_iff a x,
    eq_iff b x,
    eq_iff x a,
    eq_iff x b,
    eq_refl a,
    eq_refl b,
    eq_refl x,
  ),
  λ y p. not_cyclic_of-IsSafe (dependees_of (shared_missing a b x).nodes) (all_safe y) p,
)
  where
    x_safe : IsSafe (dependees_of (shared_missing a b x).nodes) x
    x_safe = safe (λ z e. absurd (ground (arith, edges_of_shared a b x x z e, xa, xb)))

    all_safe : (y : String) → IsSafe (dependees_of (shared_missing a b x).nodes) y
    all_safe y = safe (λ z e.
        subst (IsSafe (dependees_of (shared_missing a b x).nodes))
          (sym (edges_of_shared a b x y z e).0) x_safe)
