-- ===== src/Cycles/Complete.antt =====
-- A search that reports no cycle has looked at all there is: nothing that it has left is on a cycle.
use ugem.Prelude.{
  ℕ, zero, suc, ◌≡◌, refl, sym, subst, String, true, false, ◌⊎◌, inl, inr, Option, some, List, [],
  ◌∷◌, ◌==◌, contains, eq_iff, arith, Bool-cases, Option-cases,
}
use ugem.Cycles.{
  Marks, no_marks, Outcome, exhausted, clear, enter, leave, finish, walk, dfs, find_cycle,
}
use ugem.Cycles.Sound.{
  Outcome-cases, contains-without, contains_cases, Edge, Trail, edge, join, Trail-snoc,
}

module _ (next : String → Option (List String)) where
  -- Every walk from the name comes to an end.
  pub data IsSafe : String → Type 0 where
    safe : {x : String} → ((y : String) → Edge next x y → IsSafe y) → IsSafe x

  no_return : {x z : String} → IsSafe x → Trail next x z → z ≡ x → ⊥
  no_return {x} (safe f) (edge {y = y} e) same =
      no_return (f y e) (edge (subst (λ w. Edge next w y) (sym same) e)) refl
  no_return {x} (safe f) (join {y = y} e p) same =
      no_return (f y e) (Trail-snoc next p (subst (λ w. Edge next w y) (sym same) e)) refl

  pub not_cyclic_of-IsSafe : {x : String} → IsSafe x → Trail next x x → ⊥
  not_cyclic_of-IsSafe s p = no_return s p refl

  -- The names that are being visited are marked twice.
  abbrev Holds : List String → Marks → Type 0
  Holds open_now m =
      (x : String)
      → contains x open_now ≡ true
      → (contains x m.visited ≡ true) × (contains x m.rec_stack ≡ true)

  -- All other names that are marked are safe.
  abbrev Explored : List String → Marks → Type 0
  Explored open_now m =
      (x : String) → contains x m.visited ≡ true → contains x open_now ≡ false → IsSafe x

  abbrev Kept : List String → Marks → Type 0
  Kept open_now m = Holds open_now m × Explored open_now m

  abbrev IsThorough : (String → Marks → Outcome) → Type 0
  IsThorough visit =
      (open_now : List String) (node : String) (m m' : Marks)
      → contains node open_now ≡ false
      → Kept open_now m
      → visit node m ≡ clear m'
      → Kept open_now m' × IsSafe node

  fresh_not_open :
      (open_now : List String) (y : String) (m : Marks)
      → Holds open_now m
      → (contains y m.visited ≡ false) ⊎ (contains y m.rec_stack ≡ false)
      → contains y open_now ≡ false
  fresh_not_open open_now y m holds o = elim (Bool-cases (contains y open_now)) [
    | inl is_open ↦ absurd (ground (arith, holds y is_open, o))
    | inr shut ↦ shut
  ]

  walk-Kept :
      (visit : String → Marks → Outcome) (thorough : IsThorough visit) (open_now : List String)
      (node : String) (neighbors : List String) (m m' : Marks)
      → Kept open_now m
      → walk visit node neighbors m ≡ clear m'
      → Kept open_now m' × ((y : String) → contains y neighbors ≡ true → IsSafe y)
  unfolding walk contains
  walk-Kept visit thorough open_now node [] m m' kept e =
      (subst (Kept open_now) (cc e) kept, λ y c. absurd (cc c))
  walk-Kept visit thorough open_now node (y ∷ ys) m m' kept e =
      elim (Bool-cases (contains y m.visited)) [
        | inl seen ↦ elim (Bool-cases (contains y m.rec_stack)) [
          | inl open_still ↦ absurd (cc (rw (seen, open_still, walk) at e))
          | inr done ↦
              let here = kept.1 y seen (fresh_not_open open_now y m kept.0 (inr done)) in
              let (kept', rest) =
                walk-Kept visit thorough open_now node ys m m' kept (rw (seen, done, walk) at e) in
              (kept', all_safe here rest)
        ]
        | inr fresh ↦ elim (Outcome-cases (visit y m)) [
          | inl o ↦ absurd (cc (rw (fresh, o, walk) at e))
          | inr (inl (path, o)) ↦ absurd (cc (rw (fresh, o, walk) at e))
          | inr (inr (m1, o)) ↦
              let (kept1, here) =
                thorough open_now y m m1 (fresh_not_open open_now y m kept.0 (inl fresh)) kept o in
              let (kept', rest) =
                walk-Kept visit thorough open_now node ys m1 m' kept1 (rw (fresh, o, walk) at e) in
              (kept', all_safe here rest)
        ]
      ]
    where
      all_safe :
          IsSafe y
          → ((z : String) → contains z ys ≡ true → IsSafe z)
          → (z : String) → contains z (y ∷ ys) ≡ true
          → IsSafe z
      all_safe here rest z c = elim (contains_cases z y ys c) [
        | inl same ↦ subst IsSafe (sym same) here
        | inr c' ↦ rest z c'
      ]

  module _ (open_now : List String) (node : String) (shut : contains node open_now ≡ false) where
    open_apart : (x : String) → contains x open_now ≡ true → (node == x) ≡ false
    open_apart x c = ground (arith, eq_iff node x, c, shut)

    enter-Kept : (m : Marks) → Kept open_now m → Kept (node ∷ open_now) (enter node m)
    unfolding contains
    enter-Kept m kept = (
      λ x c. ground (arith, kept.0 x, c, eq_iff node x),
      λ x c d. kept.1 x (ground (arith, c, d)) (ground (arith, d)),
    )

    missing-Kept : (m : Marks) → Kept open_now m → IsSafe node → Kept open_now (enter node m)
    unfolding contains
    missing-Kept m kept s = (
      λ x c. ground (arith, kept.0 x c),
      λ x c d. elim (contains_cases x node m.visited c) [
        | inl same ↦ subst IsSafe (sym same) s
        | inr c' ↦ kept.1 x c' d
      ],
    )

    leave-Kept : (m : Marks) → Kept (node ∷ open_now) m → IsSafe node → Kept open_now (leave node m)
    unfolding contains
    leave-Kept m kept s = (
      λ x c. ground (arith, kept.0 x, contains-without node x m.rec_stack, open_apart x c, c),
      λ x c d. elim (Bool-cases (node == x)) [
        | inl same ↦ subst IsSafe ((eq_iff node x).0 same) s
        | inr other ↦ kept.1 x c (ground (arith, other, d))
      ],
    )

  clear_eq : {m m' : Marks} → clear m ≡ clear m' → m ≡ m'
  clear_eq h = cc

  no_clear_exhausted : {m : Marks} → exhausted ≡ clear m → ⊥
  no_clear_exhausted h = absurd (cc h)

  dfs_lem :
      (fuel : ℕ) (node : String) (m m' : Marks) (ys : List String)
      → next node ≡ some ys
      → dfs next (suc fuel) node m ≡ clear m'
      → (m1 : Marks) × (walk (dfs next fuel) node ys (enter node m) ≡ clear m1)
        × (leave node m1 ≡ m')
  unfolding dfs finish
  dfs_lem fuel node m m' ys there e =
      elim (Outcome-cases (walk (dfs next fuel) node ys (enter node m))) [
        | inl o ↦ absurd (ground (arith, there, o, e))
        | inr (inl (path, o)) ↦ absurd (ground (arith, there, o, e))
        | inr (inr (m1, o)) ↦ (m1, o, ground (arith, there, o, e))
      ]

  dfs-IsThorough : (fuel : ℕ) → IsThorough (dfs next fuel)
  unfolding dfs
  dfs-IsThorough zero open_now node m m' shut kept e = absurd (cc e)
  dfs-IsThorough (suc fuel) open_now node m m' shut kept e = elim (Option-cases (next node)) [
    | inl missing ↦
        let s : IsSafe node = safe (λ y edge_to. absurd (ground (arith, missing, edge_to.1))) in
        (
          subst (Kept open_now) (clear_eq (rw (missing, dfs) at e))
              (missing-Kept open_now node shut m kept s),
          s,
        )
    | inr (ys, there) ↦
        let (m1, walked, same) = dfs_lem fuel node m m' ys there e in
        let (kept1, all) =
          walk-Kept (dfs next fuel) (dfs-IsThorough fuel) (node ∷ open_now) node ys (enter node m)
            m1 (enter-Kept open_now node shut m kept) walked in
        let s : IsSafe node =
          safe (λ y edge_to. all y (ground (arith, edge_to.1, edge_to.2, there))) in
        (subst (Kept open_now) same (leave-Kept open_now node shut m1 kept1 s), s)
  ]

  find_cycle-all-IsSafe :
      (fuel : ℕ) (nodes : List String) (m m' : Marks)
      → Kept [] m
      → find_cycle (dfs next fuel) nodes m ≡ clear m'
      → (x : String) → contains x nodes ≡ true
      → IsSafe x
  unfolding find_cycle contains
  find_cycle-all-IsSafe fuel [] m m' kept e x c = absurd (cc c)
  find_cycle-all-IsSafe fuel (node ∷ nodes) m m' kept e x c =
      elim (Bool-cases (contains node m.visited)) [
        | inl seen ↦ elim (contains_cases x node nodes c) [
          | inl same ↦ subst IsSafe (sym same) (kept.1 node seen refl)
          | inr c' ↦ find_cycle-all-IsSafe fuel nodes m m' kept (rw (seen, find_cycle) at e) x c'
        ]
        | inr fresh ↦ elim (Outcome-cases (dfs next fuel node m)) [
          | inl o ↦ absurd (cc (rw (fresh, o, find_cycle) at e))
          | inr (inl (path, o)) ↦ absurd (cc (rw (fresh, o, find_cycle) at e))
          | inr (inr (m1, o)) ↦
              let (kept1, here) = dfs-IsThorough fuel [] node m m1 refl kept o in
              elim (contains_cases x node nodes c) [
                | inl same ↦ subst IsSafe (sym same) here
                | inr c' ↦
                    find_cycle-all-IsSafe fuel nodes m1 m' kept1 (rw (fresh, o, find_cycle) at e) x
                      c'
              ]
        ]
      ]

  pub find_cycle-IsSafe :
      (fuel : ℕ) (nodes : List String) (m : Marks) (x : String)
      → find_cycle (dfs next fuel) nodes no_marks ≡ clear m
      → contains x nodes ≡ true
      → IsSafe x
  unfolding contains
  find_cycle-IsSafe fuel nodes m x e c =
      find_cycle-all-IsSafe fuel nodes no_marks m ((λ x c. absurd (cc c)), (λ x c d. absurd (cc c)))
        e x c
