-- ===== src/Cycles/Sound.antt =====
-- A search that reports a cycle has found one.
use ugem.Prelude.{
  ℕ, zero, suc, ◌≡◌, ◌≢◌, refl, sym, subst, String, true, not, ◌&&◌, ◌⊎◌, inl, inr, Option, some,
  List, [], ◌∷◌, ◌==◌, contains, is_some, eq_iff, eq_refl, arith, Bool-cases, Option-cases,
}
use ugem.Cycles.{
  Marks, no_marks, without, Outcome, exhausted, cycle, clear, enter, finish, walk, dfs, find_cycle,
}

pub Outcome-cases :
    (o : Outcome)
    → (o ≡ exhausted) ⊎ ((path : String) × (o ≡ cycle path)) ⊎ ((m : Marks) × (o ≡ clear m))
Outcome-cases exhausted = inl refl
Outcome-cases (cycle path) = inr (inl (path, refl))
Outcome-cases (clear m) = inr (inr (m, refl))

pub contains-without :
    (name x : String) (xs : List String)
    → contains x (without name xs) ≡ (contains x xs && not (name == x))
unfolding contains without
contains-without name x [] = refl
contains-without name x (y ∷ ys) =
    ground (arith, contains-without name x ys, eq_iff y x, eq_iff y name, eq_iff name x)

pub contains_here : (x : String) (xs : List String) → contains x (x ∷ xs) ≡ true
unfolding contains
contains_here x xs = ground (arith, eq_refl x)

pub contains_later :
    (x y : String) (xs : List String) → contains x xs ≡ true → contains x (y ∷ xs) ≡ true
unfolding contains
contains_later x y xs h = ground (arith, h)

pub contains_cases :
    (x y : String) (xs : List String)
    → contains x (y ∷ xs) ≡ true
    → (x ≡ y) ⊎ (contains x xs ≡ true)
unfolding contains
contains_cases x y xs h = ground (arith, eq_iff y x)

module _ (next : String → Option (List String)) where
  -- `y` is a neighbour of `x`
  abbrev pub Edge : String → String → Type 0
  Edge x y = (ys : List String) × (next x ≡ some ys) × (contains y ys ≡ true)

  -- one edge or more
  pub data Trail : String → String → Type 0 where
    edge : {x y : String} → Edge x y → Trail x y
    join : {x y z : String} → Edge x y → Trail y z → Trail x z

  pub Trail-snoc : {x y z : String} → Trail x y → Edge y z → Trail x z
  Trail-snoc (edge e) f = join e (edge f)
  Trail-snoc (join e p) f = join e (Trail-snoc p f)

  -- All neighbours are nodes.
  abbrev pub IsClosed : Type 0
  IsClosed = (x y : String) → Edge x y → is_some (next y) ≡ true

  -- What a search that started with some marks may return.
  abbrev pub Good : Marks → Outcome → Type 0
  Good m exhausted = Unit
  Good m (cycle path) = (x : String) × Trail x x
  Good m (clear m') = (x : String) → contains x m'.rec_stack ≡ true → contains x m.rec_stack ≡ true

  abbrev Leads : Marks → String → Type 0
  Leads m y = (x : String) → contains x m.rec_stack ≡ true → Trail x y

  abbrev IsSound : (String → Marks → Outcome) → Type 0
  IsSound visit =
      (node : String) (m : Marks)
      → is_some (next node) ≡ true
      → Leads m node
      → Good m (visit node m)

  Good-trans : (m m' : Marks) (o : Outcome) → Good m (clear m') → Good m' o → Good m o
  Good-trans m m' exhausted h g = tt
  Good-trans m m' (cycle path) h g = g
  Good-trans m m' (clear m'') h g = λ x c. h x (g x c)

  walk-Good :
      (closed : IsClosed) (visit : String → Marks → Outcome) (sound : IsSound visit) (node : String)
      (neighbors : List String) (m : Marks)
      → ((y : String) → contains y neighbors ≡ true → Edge node y)
      → ((x : String) → contains x m.rec_stack ≡ true → (x ≡ node) ⊎ Trail x node)
      → Good m (walk visit node neighbors m)
  unfolding walk
  walk-Good closed visit sound node [] m edges leads = λ x c. c
  walk-Good closed visit sound node (y ∷ ys) m edges leads =
      let here : Edge node y = edges y (contains_here y ys) in
      let later : (z : String) → contains z ys ≡ true → Edge node z =
        λ z c. edges z (contains_later z y ys c) in
      let reach : (x : String) → (x ≡ node) ⊎ Trail x node → Trail x y = λ x o. elim o [
        | inl e ↦ edge (subst (λ n. Edge n y) (sym e) here)
        | inr p ↦ Trail-snoc p here
      ] in
      elim (Bool-cases (contains y m.visited)) [
        | inl seen ↦ elim (Bool-cases (contains y m.rec_stack)) [
          | inl open_still ↦ rw (seen, open_still, walk) (y, reach y (leads y open_still))
          | inr done ↦ rw (seen, done, walk) (walk-Good closed visit sound node ys m later leads)
        ]
        | inr fresh ↦
            let good = sound y m (closed node y here) (λ x c. reach x (leads x c)) in
            elim (Outcome-cases (visit y m)) [
              | inl e ↦ rw (fresh, e, walk) tt
              | inr (inl (path, e)) ↦ rw (fresh, e, walk) (subst (Good m) e good)
              | inr (inr (m', e)) ↦
                  let shrunk = subst (Good m) e good in
                  rw (fresh, e, walk)
                    (Good-trans m m' (walk visit node ys m') shrunk
                      (walk-Good closed visit sound node ys m' later (λ x c. leads x (shrunk x c))))
            ]
      ]

  finish-Good :
      (m : Marks) (node : String) (o : Outcome) → Good (enter node m) o → Good m (finish node o)
  unfolding finish
  finish-Good m node exhausted g = tt
  finish-Good m node (cycle path) g = g
  finish-Good m node (clear m') g = λ x c.
      elim (contains_cases x node m.rec_stack
        (g x (ground (arith, contains-without node x m'.rec_stack, c)))) [
          | inl same ↦
              absurd (ground (arith, contains-without node x m'.rec_stack, c, eq_iff node x, same))
          | inr h ↦ h
        ]

  dfs-Good : (closed : IsClosed) (fuel : ℕ) → IsSound (dfs next fuel)
  unfolding dfs
  dfs-Good closed zero node m there leads = tt
  dfs-Good closed (suc fuel) node m there leads = elim (Option-cases (next node)) [
    | inl missing ↦ absurd (ground (arith, missing))
    | inr (ys, e) ↦
        rw (e, dfs)
          (finish-Good m node (walk (dfs next fuel) node ys (enter node m)) (
            walk-Good closed (dfs next fuel) (dfs-Good closed fuel) node ys (enter node m)
              (λ y c. (ys, e, c))
              (λ x c. elim (contains_cases x node m.rec_stack c) [
                | inl same ↦ inl same
                | inr h ↦ inr (leads x h)
              ])))
  ]

  -- If the search reports a cycle, some name has a path back to itself.
  abbrev pub IsJustified : Outcome → Type 0
  IsJustified (cycle path) = (x : String) × Trail x x
  IsJustified _ = Unit

  find_cycle-Good :
      (closed : IsClosed) (fuel : ℕ) (nodes : List String) (m : Marks)
      → ((x : String) → contains x nodes ≡ true → is_some (next x) ≡ true)
      → ((x : String) → contains x m.rec_stack ≢ true)
      → IsJustified (find_cycle (dfs next fuel) nodes m)
  unfolding find_cycle
  find_cycle-Good closed fuel [] m known empty = tt
  find_cycle-Good closed fuel (node ∷ nodes) m known empty =
      let rest_known : (x : String) → contains x nodes ≡ true → is_some (next x) ≡ true =
        λ x c. known x (contains_later x node nodes c) in
      let good =
        dfs-Good closed fuel node m (known node (contains_here node nodes))
          (λ x c. absurd (empty x c)) in
      elim (Bool-cases (contains node m.visited)) [
        | inl seen ↦ rw (seen, find_cycle) (find_cycle-Good closed fuel nodes m rest_known empty)
        | inr fresh ↦ elim (Outcome-cases (dfs next fuel node m)) [
          | inl e ↦ rw (fresh, e, find_cycle) tt
          | inr (inl (path, e)) ↦ rw (fresh, e, find_cycle) (subst (Good m) e good)
          | inr (inr (m', e)) ↦
              let shrunk = subst (Good m) e good in
              rw (fresh, e, find_cycle)
                (find_cycle-Good closed fuel nodes m' rest_known (λ x c. empty x (shrunk x c)))
        ]
      ]

  pub find_cycle-IsJustified :
      (fuel : ℕ) (nodes : List String)
      → IsClosed
      → ((x : String) → contains x nodes ≡ true → is_some (next x) ≡ true)
      → IsJustified (find_cycle (dfs next fuel) nodes no_marks)
  unfolding contains
  find_cycle-IsJustified fuel nodes closed known =
      find_cycle-Good closed fuel nodes no_marks known (λ x c. cc c)
