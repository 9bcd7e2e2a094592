-- ===== src/GoalEngine/Samples.antt =====
-- Runs of the goal engine, and its theorems at them.
use ugem.Prelude.{◌≡◌, refl, String, none, some, [], ◌∷◌, get, count, contains, is_some, put, arith}
use ugem.Types.{Event}
use ugem.SampleData.{write, event_of, waiting, no_closures}
use ugem.StateManager.{new_state_manager, apply_event, any_locked, lock_of, run_mutator}
use ugem.Goal.{pending, Query, answer, ask, Goal, holds, track}
use ugem.GoalEngine.{
  GoalEngine, new_goal_engine, add_goal, cancel_goal, evaluate, handle_event, any_in,
}
use ugem.GoalEngine.Filing.{IsFiled, in_active}
use ugem.GoalEngine.Settling.{NotMade}
use ugem.GoalEngine.Waking.{handle_event-wakes}
use ugem.GoalEngine.Lifecycle.{fresh, next, adding, cancelling, handling, Reach-IsFiled}
use ugem.GoalEngine.Dependencies.{IsTracked, answers, asks, evaluate_stable}

abbrev refill : Goal
refill = waiting "refill" "stock" pending

-- `refill` waits for the stock.
abbrev one_waits : GoalEngine
one_waits = record new_goal_engine {
  goals = ("refill", refill) ∷ [];
  pending_goals = "refill" ∷ [];
}

abbrev sale : Event
sale = event_of ("stock" ∷ []) none (write "stock" 3 ∷ [])

no_closures-NotMade : (id : String) → NotMade no_closures id
no_closures-NotMade id f d comp e = absurd (cc e)

one_waits-IsFiled : IsFiled one_waits "refill"
unfolding count get
one_waits-IsFiled = record { actives = refl; pendings = refl }

handle_event-wakes_example :
    let g' = handle_event no_closures [] one_waits ("refill" ∷ []) sale in
    (in_active (get g'.goals "refill") ≡ 1)
    × (count "refill" g'.active_goals ≡ 1)
    × (count "refill" g'.pending_goals ≡ 0)
unfolding count get contains
handle_event-wakes_example =
    handle_event-wakes no_closures [] one_waits ("refill" ∷ []) sale "refill" "stock" refill refl
      refl refl refl refl (no_closures-NotMade "refill") one_waits-IsFiled

Reach-IsFiled_example :
    let added = (add_goal new_goal_engine refill 4).0 in
    let handled = handle_event no_closures [] added ("refill" ∷ []) sale in
    IsFiled (cancel_goal handled "refill" "late" 9).0 "refill"
unfolding count
Reach-IsFiled_example = Reach-IsFiled no_closures "refill" (
    next
      (next (next fresh (adding refill 4))
        (handling [] ("refill" ∷ []) sale (omega arith) (no_closures-NotMade "refill")))
      (cancelling "refill" "late" 9))

-- whether there is a stock
abbrev in_stock : Query
in_stock = ask "stock" (λ v. answer (is_some v))

in_stock-IsTracked : IsTracked in_stock
in_stock-IsTracked = asks "stock" (λ v. answer (is_some v)) (λ v. answers (is_some v))

abbrev watched : Goal
watched = record refill { condition = some in_stock }

abbrev rain : Event
rain = event_of ("weather" ∷ []) none (write "weather" 1 ∷ [])

evaluate_stable_example :
    holds in_stock (apply_event new_state_manager rain).0.data_map
    ≡ (evaluate one_waits watched new_state_manager.data_map).1
unfolding evaluate track get put any_in contains apply_event any_locked lock_of run_mutator
evaluate_stable_example =
    evaluate_stable one_waits watched in_stock ("stock" ∷ []) new_state_manager
      (apply_event new_state_manager rain).0 rain refl in_stock-IsTracked refl refl (refl, tt) refl
      refl
