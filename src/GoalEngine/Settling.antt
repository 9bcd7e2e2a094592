-- ===== src/GoalEngine/Settling.antt =====
-- runtime/goal_engine.go: compensations that `HandleEvent` makes leave a goal as it was filed.
use ugem.Prelude.{
  ℕ, ◌<◌, ◌≡◌, ◌≢◌, refl, String, true, false, Option, none, some, List, [], ◌∷◌, ◌==◌, eq_iff, get,
  put, get-put, count, count-append, count-singleton, arith, Option-cases, Bool-cases, inl, inr,
}
use ugem.Types.{State}
use ugem.Goal.{pending, compensating, Goal, Closures}
use ugem.GoalEngine.{
  GoalEngine, goal_of, add_pending, add_compensation, still_satisfied, compensation, settle,
  settle_all,
}
use ugem.GoalEngine.Filing.{in_active, in_pending}

-- No compensation is a goal of this name.
abbrev pub NotMade : Closures → String → Type 0
NotMade closures id =
    (f : ℕ) (d : State) (comp : Goal) → closures.compensates f d ≡ some comp → comp.id ≢ id

-- One goal is filed as before, and has a place as before.
pub record IsKept (g g' : GoalEngine) (id : String) : Type 0 where
  pub actives : count id g'.active_goals ≡ count id g.active_goals
  pub pendings : count id g'.pending_goals ≡ count id g.pending_goals
  pub as_active : in_active (get g'.goals id) ≡ in_active (get g.goals id)
  pub as_pending : in_pending (get g'.goals id) ≡ in_pending (get g.goals id)

add_compensation-IsKept :
    (g : GoalEngine) (parent id : String) (o : Option Goal)
    → ((comp : Goal) → o ≡ some comp → comp.id ≢ id)
    → IsKept g (add_compensation g parent o) id
unfolding add_pending
add_compensation-IsKept g parent id none h = ground arith
add_compensation-IsKept g parent id (some comp) h = ground (
  arith,
  h comp refl,
  eq_iff comp.id id,
  get-put g.goals comp.id id
      (record comp { parent_id = some parent; clock = g.clock; state = pending }),
  count-append id g.pending_goals (comp.id ∷ []),
  count-singleton comp.id id,
)

IsKept-trans : (g h k : GoalEngine) (id : String) → IsKept g h id → IsKept h k id → IsKept g k id
IsKept-trans g h k id a b = ground arith

compensating-IsKept :
    (g : GoalEngine) (j id : String)
    → ((j == id) ≡ true → (in_active (get g.goals id) ≡ 0) × (in_pending (get g.goals id) ≡ 0))
    → IsKept g
        (record g { goals = put g.goals j (record (goal_of g.goals j) { state = compensating }) })
        id
compensating-IsKept g j id idle = ground (
  arith,
  idle,
  eq_iff j id,
  get-put g.goals j id (record (goal_of g.goals j) { state = compensating }),
)

compensation-NotMade :
    (closures : Closures) (goal : Goal) (d : State) (id : String)
    → NotMade closures id
    → (comp : Goal) → compensation closures goal d ≡ some comp
    → comp.id ≢ id
compensation-NotMade closures goal d id other comp e = elim (Option-cases goal.compensate) [
  | inl n ↦ absurd (ground (arith, n))
  | inr (f, s) ↦ other f d comp (ground arith)
]

settled_lem :
    (closures : Closures) (d : State) (g : GoalEngine) (j : String)
    → still_satisfied (goal_of g.goals j) d ≡ true
    → settle closures d g j ≡ g
unfolding settle
settled_lem closures d g j h = rw h

upset_lem :
    (closures : Closures) (d : State) (g : GoalEngine) (j : String)
    → still_satisfied (goal_of g.goals j) d ≡ false
    → settle closures d g j
      ≡ add_compensation
          (record g { goals = put g.goals j (record (goal_of g.goals j) { state = compensating }) })
          (goal_of g.goals j).id
          (compensation closures (goal_of g.goals j) d)
unfolding settle
upset_lem closures d g j h = rw h

settle-IsKept :
    (closures : Closures) (d : State) (g : GoalEngine) (j id : String)
    → NotMade closures id
    → ((j == id) ≡ true → (in_active (get g.goals id) ≡ 0) × (in_pending (get g.goals id) ≡ 0))
    → IsKept g (settle closures d g j) id
settle-IsKept closures d g j id other idle =
    let goal = goal_of g.goals j in
    let g' = record g { goals = put g.goals j (record goal { state = compensating }) } in
    elim (Bool-cases (still_satisfied goal d)) [
      | inl holds ↦
          rw (settled_lem closures d g j holds)
            (record { actives = refl; pendings = refl; as_active = refl; as_pending = refl })
      | inr fails ↦ rw (upset_lem closures d g j fails) (
          IsKept-trans g g' (add_compensation g' goal.id (compensation closures goal d)) id
            (compensating-IsKept g j id idle)
            (add_compensation-IsKept g' goal.id id (compensation closures goal d)
              (compensation-NotMade closures goal d id other)))
    ]

pub settle_all-IsKept :
    (closures : Closures) (d : State) (g : GoalEngine) (ids : List String) (id : String)
    → NotMade closures id
    → (0 < count id ids → (in_active (get g.goals id) ≡ 0) × (in_pending (get g.goals id) ≡ 0))
    → IsKept g (settle_all closures d g ids) id
unfolding settle_all count
settle_all-IsKept closures d g [] id other idle = record {
  actives = refl;
  pendings = refl;
  as_active = refl;
  as_pending = refl;
}
settle_all-IsKept closures d g (j ∷ ids) id other idle =
    let one = settle-IsKept closures d g j id other (λ e. idle (ground arith)) in
    IsKept-trans g (settle closures d g j) (settle_all closures d (settle closures d g j) ids) id
      one
      (settle_all-IsKept closures d (settle closures d g j) ids id other (λ p.
        let (a, b) = idle (ground arith) in
        (omega (arith, one.as_active), omega (arith, one.as_pending))))
