-- ===== src/Planner/Plans.antt =====
-- What a plan holds.
use ugem.Prelude.{
  ℕ, ◌+◌, ◌≡◌, ◌≢◌, refl, ◌∙◌, String, Bool, true, false, ◌||◌, List, [], ◌∷◌, ◌++◌, GoMap, ◌==◌,
  keys, if◌then◌else◌, ltb, length, contains, eq_iff, arith, list_cases, Bool-cases, inl, inr,
}
use text.Mathlib.TextLemmas.{append_cancel_right, append-ne-nil_of_right_ne-nil}
use ugem.Prelude.Sort.{sort, insert}
use ugem.Prelude.StringOrder.{str_ltb}
use ugem.Cycles.Sound.{contains_cases}
use ugem.Planner.{
  Action, Planner, ActionResolver, dependencies, action_id, create_action_for_path, enqueue_action,
  gather_dependencies, gather_paths, has_id, gather_missing, compute_action_sequence, id_less,
  build_action_plan, resolve,
}

-- how many of the actions have an id
unfoldable pub count_id : String → List Action → ℕ
count_id id [] = 0
count_id id (a ∷ queue) = (if a.id == id then 1 else 0) + count_id id queue

-- whether one of the paths depends on a path directly
unfoldable pub any_depends : Planner → List String → String → Bool
any_depends p [] x = false
any_depends p (path ∷ paths) x = contains x (dependencies p path) || any_depends p paths x

abbrev one_if : Bool → ℕ
one_if b = if b then 1 else 0

action_id_eq : (d x : String) → (action_id d == action_id x) ≡ (d == x)
action_id_eq d x =
    ground
      (arith, eq_iff (action_id d) (action_id x), eq_iff d x, append_cancel_right d x "_action")

action_id-ne-empty : (d : String) → (action_id d == "") ≡ false
action_id-ne-empty d = elim (Bool-cases (action_id d == "")) [
  | inl same ↦
      absurd
        (append-ne-nil_of_right_ne-nil d (λ e. absurd (cc e)) ((eq_iff (action_id d) "").0 same))
  | inr other ↦ other
]

count_id-append :
    (id : String) (xs ys : List Action) → count_id id (xs ++ ys) ≡ count_id id xs + count_id id ys
unfolding count_id
count_id-append id [] ys = omega arith
count_id-append id (x ∷ xs) ys = ground (arith, count_id-append id xs ys)

has_id_lem : (id : String) (xs : List Action) → has_id id xs ≡ ltb 0 (count_id id xs)
unfolding has_id count_id
has_id_lem id [] = refl
has_id_lem id (x ∷ xs) = ground (arith, has_id_lem id xs)

count_id-insert :
    (id : String) (a : Action) (xs : List Action)
    → count_id id (insert id_less a xs) ≡ (if a.id == id then 1 else 0) + count_id id xs
unfolding insert count_id
count_id-insert id a [] = refl
count_id-insert id a (x ∷ xs) = ground (arith, count_id-insert id a xs)

count_id-sort : (id : String) (xs : List Action) → count_id id (sort id_less xs) ≡ count_id id xs
unfolding sort count_id
count_id-sort id [] = refl
count_id-sort id (x ∷ xs) =
    omega (arith, count_id-insert id x (sort id_less xs), count_id-sort id xs)

module _ (p : Planner) where
  -- whether any type of action is registered
  abbrev pub is_able : Bool
  is_able = ltb 0 (length p.resolvers)

  abbrev IsMade : Type 0
  IsMade = (path : String) → (create_action_for_path p path).id ≡ action_id path

  insert-cons : (x : String) (xs : List String) → insert str_ltb x xs ≢ []
  unfolding insert
  insert-cons x [] e = cc
  insert-cons x (y ∷ ys) e = elim (Bool-cases (str_ltb y x)) [
    | inl lt ↦ absurd (cc (rw lt at e))
    | inr ge ↦ absurd (cc (rw ge at e))
  ]

  made :
      (resolvers : GoMap ActionResolver)
      → p.resolvers ≡ resolvers
      → ltb 0 (length resolvers) ≡ true
      → IsMade
  unfolding create_action_for_path sort
  made [] e able path = absurd (cc able)
  made ((k, r) ∷ resolvers) e able path =
      elim (list_cases (insert str_ltb k (sort str_ltb (keys resolvers)))) [
        | inl none_there ↦ absurd (insert-cons k (sort str_ltb (keys resolvers)) none_there)
        | inr (t, ts, there) ↦ rw (e, create_action_for_path, sort, there) refl
      ]

  module _ (is_made : IsMade) (x : String) where
    abbrev here : List Action → ℕ
    here queue = count_id (action_id x) queue

    enqueue_lem :
        (d : String) (queue : List Action)
        → here (enqueue_action (create_action_for_path p d) queue) ≡ here queue + one_if (d == x)
    unfolding count_id
    enqueue_lem d queue = ground (
      arith,
      is_made d,
      action_id-ne-empty d,
      action_id_eq d x,
      count_id-append (action_id x) queue (create_action_for_path p d ∷ []),
    )

    gather_dependencies_lem :
        (deps visited : List String) (queue : List Action)
        → here queue ≡ one_if (contains x visited)
        → let r = gather_dependencies p deps visited queue in
          (contains x r.0 ≡ (contains x deps || contains x visited))
          × (here r.1 ≡ one_if (contains x r.0))
    unfolding gather_dependencies contains
    gather_dependencies_lem [] visited queue h = (refl, h)
    gather_dependencies_lem (dep ∷ deps) visited queue h =
        elim (Bool-cases (contains dep visited)) [
          | inl seen ↦
              ground (arith, seen, eq_iff dep x, gather_dependencies_lem deps visited queue h)
          | inr fresh ↦
              let queue' = enqueue_action (create_action_for_path p dep) queue in
              let now : here queue' ≡ one_if (contains x (dep ∷ visited)) =
                ground (arith, h, enqueue_lem dep queue, eq_iff dep x, fresh) in
              ground (arith, fresh, gather_dependencies_lem deps (dep ∷ visited) queue' now)
        ]

    gather_paths_lem :
        (paths visited_paths visited : List String) (queue : List Action)
        → here queue ≡ one_if (contains x visited)
        → ((path : String)
            → contains path visited_paths ≡ true
            → contains x (dependencies p path) ≡ true
            → contains x visited ≡ true)
        → here (gather_paths p paths visited_paths visited queue)
          ≡ one_if (any_depends p paths x || contains x visited)
    unfolding gather_paths any_depends
    gather_paths_lem [] visited_paths visited queue h done = h
    gather_paths_lem (path ∷ paths) visited_paths visited queue h done =
        elim (Bool-cases (contains path visited_paths)) [
          | inl seen ↦
              ground
                (arith, seen, done path, gather_paths_lem paths visited_paths visited queue h done)
          | inr fresh ↦
              let r = gather_dependencies p (dependencies p path) visited queue in
              let (grown, now) = gather_dependencies_lem (dependencies p path) visited queue h in
              let later =
                gather_paths_lem paths (path ∷ visited_paths) r.0 r.1 now (still r.0 path grown) in
              ground (arith, fresh, grown, later)
        ]
      where
        still :
            (visited' : List String) (path : String)
            → contains x visited' ≡ (contains x (dependencies p path) || contains x visited)
            → (path' : String) → contains path' (path ∷ visited_paths) ≡ true
            → contains x (dependencies p path') ≡ true
            → contains x visited' ≡ true
        still visited' path grown path' c depends =
            elim (contains_cases path' path visited_paths c) [
              | inl same ↦ ground (arith, grown, same, depends)
              | inr c' ↦ ground (arith, grown, done path' c' depends)
            ]

    gather_missing_lem :
        (paths : List String) (queue : List Action) (b : Bool)
        → here queue ≡ one_if b
        → here (gather_missing p paths queue) ≡ one_if (contains x paths || b)
    unfolding gather_missing contains
    gather_missing_lem [] queue b h = h
    gather_missing_lem (path ∷ paths) queue b h =
        let action = create_action_for_path p path in
        let queue' = if has_id action.id queue then queue else enqueue_action action queue in
        let now : here queue' ≡ one_if ((path == x) || b) = ground (
          arith,
          h,
          is_made path,
          has_id_lem action.id queue,
          enqueue_lem path queue,
          eq_iff path x,
        ) in
        gather_missing_lem paths queue' ((path == x) || b) now ∙ ground (arith)

    build_action_plan_lem :
        (missing : List String)
        → here (build_action_plan p missing)
          ≡ one_if (contains x missing || any_depends p missing x)
    unfolding build_action_plan compute_action_sequence contains count_id
    build_action_plan_lem missing =
        count_id-sort (action_id x) (compute_action_sequence p missing)
        ∙ gather_missing_lem missing (gather_paths p missing [] [] []) (any_depends p missing x)
            (ground (arith, gather_paths_lem missing [] [] [] refl (λ path c d. absurd (cc c))))

  -- If any type of action is registered, a plan has exactly one action for each missing path and for
  -- each path that a missing path depends on directly, and none for any other path.
  pub resolve-count_id :
      (missing : List String) (x : String)
      → is_able ≡ true
      → count_id (action_id x) (resolve p missing).1.actions
        ≡ (if contains x missing || any_depends p missing x then 1 else 0)
  unfolding resolve contains any_depends count_id
  resolve-count_id [] x able = refl
  resolve-count_id (path ∷ paths) x able =
      build_action_plan_lem (made p.resolvers refl able) x (path ∷ paths)
