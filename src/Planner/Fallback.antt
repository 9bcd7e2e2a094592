-- ===== src/Planner/Fallback.antt =====
-- Which alternative plan a goal gets.
use ugem.Prelude.{
  ℕ, ◌+◌, ◌-◌, ◌*◌, ◌%◌, ◌<◌, ◌≡◌, ap, ◌∙◌, String, some, List, get_elem?, get_elem?_within, length,
  arith,
}
use native.Mathlib.Nat.{mul-add-mod_self_right, mod-eq_of_lt}
use ugem.Planner.{Planner, alternatives, resolve_with_fallback}

-- The k-th round of the alternatives of a goal: after `k * n + i + 1` failures, where the goal has `n`
-- alternatives, the plan has the actions of the alternative `i`, so each of them gets its turn.
resolve_with_fallback_rounds :
    (p : Planner) (goal_id : String) (missing : List String) (k i : ℕ)
    → i < length (alternatives p goal_id)
    → get_elem? (alternatives p goal_id) i
      ≡ some
          (resolve_with_fallback p goal_id missing
            (k * length (alternatives p goal_id) + i + 1)).1.actions
unfolding resolve_with_fallback
resolve_with_fallback_rounds p goal_id missing k i within =
    let n = length (alternatives p goal_id) in
    let turn : (k * n + i + 1 - 1) % n ≡ i =
      ap (λ x. x % n) (omega arith) ∙ mul-add-mod_self_right k n i ∙ mod-eq_of_lt within in
    let (actions, there) = get_elem?_within (alternatives p goal_id) i within in
    ground (arith, turn, there, within)
