-- ===== src/Gdl/Conditions.antt =====
-- gdl/compiler.go: what the conditions of a compiled goal ask for.
use ugem.Prelude.{
  ℕ, Bool, true, false, Option, none, some, List, [], ◌∷◌, ◌≡◌, ◌≢◌, ◌↔◌, refl, sym, ◌∙◌, get,
  arith, All, Option-cases, inl, inr,
}
use ugem.Types.{TypedValue, State}
use ugem.GoalEngine.Dependencies.{track-holds}
use ugem.Goal.{Goal, Query, holds, track}
use ugem.GoalEngine.{GoalEngine, evaluate}
use ugem.Gdl.{Condition, GoalDef}
use ugem.Gdl.Compiler.{
  Floats, compare_values, next_if, evaluate_conditions, condition_of, compile_goal,
}

-- The path of the condition is set, and its value compares as the condition says.
abbrev pub IsMet : Floats → State → Condition → Type 0
IsMet floats d c =
    (v : TypedValue) × (get d c.path ≡ some v) × (compare_values floats v.value c.op c.value ≡ true)

met_cases :
    (floats : Floats) (c : Condition) (next : Query) (d : State) (o : Option TypedValue)
    → (holds (next_if floats c next o) d ≡ true) ↔ (
        ((v : TypedValue) × (o ≡ some v) × (compare_values floats v.value c.op c.value ≡ true))
        × (holds next d ≡ true))
unfolding next_if holds
met_cases floats c next d none = ground arith
met_cases floats c next d (some v) =
    ((λ h. ((v, refl, ground arith), ground arith)), λ ((w, e, t), h). ground arith)

evaluate_conditions_iff :
    (floats : Floats) (conditions : List Condition) (d : State)
    → (holds (evaluate_conditions floats conditions) d ≡ true) ↔ All (IsMet floats d) conditions
unfolding evaluate_conditions holds
evaluate_conditions_iff floats [] d = ((λ _. tt), (λ _. refl))
evaluate_conditions_iff floats (c ∷ conditions) d =
    let step = met_cases floats c (evaluate_conditions floats conditions) d (get d c.path) in
    let rest = evaluate_conditions_iff floats conditions d in
    (λ h. ((step.0 h).0, rest.0 (step.0 h).1), λ (h, hs). step.1 (h, rest.1 hs))

-- the answer of a condition, where there is one
abbrev answer_of : Option Query → State → Bool
answer_of none d = false
answer_of (some q) d = (track q d).0

condition_of_iff :
    (floats : Floats) (conditions : List Condition) (d : State)
    → (answer_of (condition_of floats conditions) d ≡ true)
      ↔ ((conditions ≢ []) × All (IsMet floats d) conditions)
unfolding condition_of
condition_of_iff floats [] d = ((λ h. absurd (cc h)), λ (n, _). absurd (n refl))
condition_of_iff floats (c ∷ conditions) d =
    let q = evaluate_conditions floats (c ∷ conditions) in
    let each = evaluate_conditions_iff floats (c ∷ conditions) d in
    (
      (λ h. ((λ e. cc e), each.0 (sym (track-holds q d) ∙ h))),
      λ (_, met). track-holds q d ∙ each.1 met,
    )

evaluate-answer_of :
    (g : GoalEngine) (goal : Goal) (d : State) → (evaluate g goal d).1 ≡ answer_of goal.condition d
unfolding evaluate
evaluate-answer_of g goal d = elim (Option-cases goal.condition) [
  | inl e ↦ rw e refl
  | inr (q, e) ↦ rw e refl
]

-- The engine takes a compiled goal to be satisfied in a state exactly if the goal has conditions, and
-- the path of each is set there to a value that compares as the condition says.
pub evaluate-compile_goal :
    (floats : Floats) (g : GoalEngine) (place : ℕ) (goal : GoalDef) (d : State)
    → ((evaluate g (compile_goal floats place goal) d).1 ≡ true)
      ↔ ((goal.condition ≢ []) × All (IsMet floats d) goal.condition)
unfolding compile_goal
evaluate-compile_goal floats g place goal d =
    rw (evaluate-answer_of g (compile_goal floats place goal) d)
      (condition_of_iff floats goal.condition d)
