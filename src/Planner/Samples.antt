-- ===== src/Planner/Samples.antt =====
-- A planner with one type of action, and the theorems about plans at it.
use ugem.Prelude.{◌≡◌, put, get, contains, refl, some, [], ◌∷◌, inr}
use ugem.Types.{cyclic_dependency}
use ugem.Cycles.Sound.{edge, join}
use ugem.Planner.{
  Planner, new_planner, action_id, create_action_for_path, resolve, validate, register_action,
  register_dependency, register_alternative_plan,
}
use ugem.Planner.Plans.{count_id, any_depends, resolve-count_id}
use ugem.Planner.Validation.{Chain, validate_cycle}

-- `tax` depends on `total`, and `total` on `stock`.
abbrev shop : Planner
shop =
    register_dependency
      (register_dependency (register_action new_planner "compute" 0) "tax" ("total" ∷ [])) "total"
      ("stock" ∷ [])

resolve-count_id_example : count_id (action_id "stock") (resolve shop ("tax" ∷ [])).1.actions ≡ 0
unfolding put contains resolve any_depends count_id get
resolve-count_id_example = resolve-count_id shop ("tax" ∷ []) "stock" refl

-- Two ways to compute the tax.
abbrev careful : Planner
careful =
    register_alternative_plan
      (register_alternative_plan shop "tax" (create_action_for_path shop "rate" ∷ [])) "tax" []

-- `compute` depends on `tax`, `tax` on `total`, and `total` on `tax`.
abbrev circular : Planner
circular =
    register_dependency (register_dependency shop "total" ("tax" ∷ [])) "compute" ("tax" ∷ [])

round : Chain circular "tax" "tax"
unfolding put get contains
round = join {y = "total"} ("total" ∷ [], refl, refl) (edge ("tax" ∷ [], refl, refl))

validate_cycle_example : validate circular ("compute" ∷ []) ≡ some cyclic_dependency
unfolding put get contains
validate_cycle_example =
    validate_cycle circular ("compute" ∷ []) "compute" "tax" refl
      (inr (edge ("tax" ∷ [], refl, refl))) round
