-- ===== src/Planner/Bare.antt =====
-- Plans of a planner with which no type of action is registered.
use ugem.Prelude.{◌≡◌, refl, ap, ◌∙◌, String, true, List, [], ◌∷◌, ◌==◌, arith}
use ugem.Prelude.Sort.{sort}
use ugem.Planner.{
  Action, no_action, Planner, dependencies, create_action_for_path, gather_dependencies,
  gather_paths, gather_missing, compute_action_sequence, id_less, build_action_plan, resolve,
}

module _ (p : Planner) where
  -- The actions of a planner without resolvers.
  create_action_for_path-none :
      (path : String) → p.resolvers ≡ [] → create_action_for_path p path ≡ no_action
  unfolding create_action_for_path sort
  create_action_for_path-none path h = rw h refl

  module _ (bare : p.resolvers ≡ []) where
    no_id : (path : String) → (create_action_for_path p path).id == "" ≡ true
    no_id path = ap (λ a. a.id == "") (create_action_for_path-none path bare)

    gather_dependencies-none :
        (deps visited : List String) (queue : List Action)
        → (gather_dependencies p deps visited queue).1 ≡ queue
    unfolding gather_dependencies
    gather_dependencies-none [] visited queue = refl
    gather_dependencies-none (dep ∷ deps) visited queue = ground (
      arith,
      no_id dep,
      gather_dependencies-none deps visited queue,
      gather_dependencies-none deps (dep ∷ visited) queue,
    )

    gather_paths-none :
        (paths visited_paths visited : List String) (queue : List Action)
        → gather_paths p paths visited_paths visited queue ≡ queue
    unfolding gather_paths
    gather_paths-none [] visited_paths visited queue = refl
    gather_paths-none (path ∷ paths) visited_paths visited queue =
        let r = gather_dependencies p (dependencies p path) visited queue in
        ground (
          arith,
          gather_dependencies-none (dependencies p path) visited queue,
          gather_paths-none paths visited_paths visited queue,
          gather_paths-none paths (path ∷ visited_paths) r.0 r.1,
        )

    gather_missing-none :
        (paths : List String) (queue : List Action) → gather_missing p paths queue ≡ queue
    unfolding gather_missing
    gather_missing-none [] queue = refl
    gather_missing-none (path ∷ paths) queue =
        ground (arith, no_id path, gather_missing-none paths queue)

    -- Where no type of action is registered, no plan has an action.
    pub resolve-none : (missing : List String) → (resolve p missing).1.actions ≡ []
    unfolding resolve build_action_plan compute_action_sequence sort
    resolve-none [] = refl
    resolve-none (path ∷ paths) = ap (sort id_less) (
        gather_missing-none (path ∷ paths) (gather_paths p (path ∷ paths) [] [] [])
        ∙ gather_paths-none (path ∷ paths) [] [] [])
