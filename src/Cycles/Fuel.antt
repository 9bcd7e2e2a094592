-- ===== src/Cycles/Fuel.antt =====
-- As much fuel as there are names is enough: each visit marks a name that was not marked.
use ugem.Prelude.{
  ℕ, zero, suc, ◌+◌, ◌≤◌, ◌<◌, ◌≡◌, ◌≢◌, subst, String, true, false, inl, inr, Option, List, [],
  ◌∷◌, ◌==◌, if◌then◌else◌, contains, length, eq_iff, eq_refl, arith, Bool-cases, Option-cases,
}
use ugem.Cycles.{
  Marks, no_marks, Outcome, exhausted, cycle, clear, enter, finish, walk, dfs, find_cycle,
}
use ugem.Cycles.Sound.{Outcome-cases, contains_here, contains_later, Edge}

-- how many of the names are not marked
unseen : List String → List String → ℕ
unseen visited [] = 0
unseen visited (u ∷ us) = (if contains u visited then 0 else 1) + unseen visited us

abbrev Within : List String → List String → Type 0
Within xs ys = (x : String) → contains x xs ≡ true → contains x ys ≡ true

unseen_mono : (us xs ys : List String) → Within xs ys → unseen ys us ≤ unseen xs us
unfolding unseen
unseen_mono [] xs ys h = omega arith
unseen_mono (u ∷ us) xs ys h = ground (arith, h u, unseen_mono us xs ys h)

unseen_enter :
    (us xs : List String) (node : String)
    → contains node us ≡ true
    → contains node xs ≡ false
    → unseen (node ∷ xs) us < unseen xs us
unfolding unseen contains
unseen_enter [] xs node c f = absurd (cc c)
unseen_enter (u ∷ us) xs node c f = elim (Bool-cases (u == node)) [
  | inl same ↦
      let e = (eq_iff u node).0 same in
      ground (
        arith,
        e,
        f,
        eq_refl node,
        eq_refl u,
        unseen_mono us xs (node ∷ xs) (λ x h. contains_later x node xs h),
      )
  | inr other ↦ ground (arith, other, c, f, eq_iff u node, eq_iff node u, unseen_enter us xs node)
]

unseen-le-length : (us xs : List String) → unseen xs us ≤ length us
unfolding unseen
unseen-le-length [] xs = omega arith
unseen-le-length (u ∷ us) xs = ground (arith, unseen-le-length us xs)

module _ (next : String → Option (List String)) (all : List String) where
  -- The names hold all neighbours of their nodes.
  abbrev pub Covers : Type 0
  Covers = (x y : String) → contains x all ≡ true → Edge next x y → contains y all ≡ true

  abbrev Grown : Marks → Outcome → Type 0
  Grown m exhausted = ⊥
  Grown m (cycle path) = Unit
  Grown m (clear m') = Within m.visited m'.visited

  abbrev IsFed : ℕ → (String → Marks → Outcome) → Type 0
  IsFed fuel visit =
      (node : String) (m : Marks)
      → contains node all ≡ true
      → contains node m.visited ≡ false
      → unseen m.visited all ≤ fuel
      → Grown m (visit node m)

  Grown-trans : (m m' : Marks) (o : Outcome) → Within m.visited m'.visited → Grown m' o → Grown m o
  Grown-trans m m' exhausted h g = g
  Grown-trans m m' (cycle path) h g = tt
  Grown-trans m m' (clear m'') h g = λ x c. g x (h x c)

  walk-Grown :
      (fuel : ℕ) (visit : String → Marks → Outcome) (fed : IsFed fuel visit) (node : String)
      (neighbors : List String) (m : Marks)
      → ((y : String) → contains y neighbors ≡ true → contains y all ≡ true)
      → unseen m.visited all ≤ fuel
      → Grown m (walk visit node neighbors m)
  unfolding walk
  walk-Grown fuel visit fed node [] m known room = λ x c. c
  walk-Grown fuel visit fed node (y ∷ ys) m known room =
      let later : (z : String) → contains z ys ≡ true → contains z all ≡ true =
        λ z c. known z (contains_later z y ys c) in
      elim (Bool-cases (contains y m.visited)) [
        | inl seen ↦ elim (Bool-cases (contains y m.rec_stack)) [
          | inl open_still ↦ rw (seen, open_still, walk) tt
          | inr done ↦ rw (seen, done, walk) (walk-Grown fuel visit fed node ys m later room)
        ]
        | inr fresh ↦
            let grown = fed y m (known y (contains_here y ys)) fresh room in
            elim (Outcome-cases (visit y m)) [
              | inl e ↦ absurd (subst (Grown m) e grown)
              | inr (inl (path, e)) ↦ rw (fresh, e, walk) tt
              | inr (inr (m', e)) ↦
                  let kept = subst (Grown m) e grown in
                  rw (fresh, e, walk)
                    (Grown-trans m m' (walk visit node ys m') kept (
                      walk-Grown fuel visit fed node ys m' later
                        (omega (arith, unseen_mono all m.visited m'.visited kept, room))))
            ]
      ]

  finish-Grown :
      (m : Marks) (node : String) (o : Outcome) → Grown (enter node m) o → Grown m (finish node o)
  unfolding finish
  finish-Grown m node exhausted g = g
  finish-Grown m node (cycle path) g = tt
  finish-Grown m node (clear m') g = λ x c. g x (contains_later x node m.visited c)

  dfs-IsFed : (covers : Covers) (fuel : ℕ) → IsFed fuel (dfs next fuel)
  unfolding dfs
  dfs-IsFed covers zero node m known fresh room =
      absurd (omega (arith, unseen_enter all m.visited node known fresh))
  dfs-IsFed covers (suc fuel) node m known fresh room = elim (Option-cases (next node)) [
    | inl missing ↦ rw (missing, dfs) (λ x c. contains_later x node m.visited c)
    | inr (ys, there) ↦
        rw (there, dfs)
          (finish-Grown m node (walk (dfs next fuel) node ys (enter node m)) (
            walk-Grown fuel (dfs next fuel) (dfs-IsFed covers fuel) node ys (enter node m)
              (λ y c. covers node y known (ys, there, c))
              (omega (arith, unseen_enter all m.visited node known fresh))))
  ]

  find_cycle-Grown :
      (covers : Covers) (fuel : ℕ) (nodes : List String) (m : Marks)
      → ((x : String) → contains x nodes ≡ true → contains x all ≡ true)
      → unseen m.visited all ≤ fuel
      → find_cycle (dfs next fuel) nodes m ≢ exhausted
  unfolding find_cycle
  find_cycle-Grown covers fuel [] m known room e = absurd (cc e)
  find_cycle-Grown covers fuel (node ∷ nodes) m known room e =
      let later : (x : String) → contains x nodes ≡ true → contains x all ≡ true =
        λ x c. known x (contains_later x node nodes c) in
      elim (Bool-cases (contains node m.visited)) [
        | inl seen ↦ find_cycle-Grown covers fuel nodes m later room (rw (seen, find_cycle) at e)
        | inr fresh ↦
            let grown =
              dfs-IsFed covers fuel node m (known node (contains_here node nodes)) fresh room in
            elim (Outcome-cases (dfs next fuel node m)) [
              | inl o ↦ subst (Grown m) o grown
              | inr (inl (path, o)) ↦ absurd (cc (rw (fresh, o, find_cycle) at e))
              | inr (inr (m', o)) ↦
                  let kept = subst (Grown m) o grown in
                  find_cycle-Grown covers fuel nodes m' later
                    (omega (arith, unseen_mono all m.visited m'.visited kept, room))
                    (rw (fresh, o, find_cycle) at e)
            ]
      ]

  pub find_cycle-ne-exhausted :
      (fuel : ℕ) (nodes : List String)
      → Covers
      → ((x : String) → contains x nodes ≡ true → contains x all ≡ true)
      → length all ≤ fuel
      → find_cycle (dfs next fuel) nodes no_marks ≢ exhausted
  find_cycle-ne-exhausted fuel nodes covers known room =
      find_cycle-Grown covers fuel nodes no_marks known
        (omega (arith, unseen-le-length all no_marks.visited, room))
