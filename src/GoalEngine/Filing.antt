-- ===== src/GoalEngine/Filing.antt =====
-- Where goals are filed: an active goal stands once in the active list and nowhere else, a pending
-- goal once in the pending list, any other goal and any unknown name in neither.
use ugem.Prelude.{
  ℕ, ◌+◌, ◌≤◌, ◌≡◌, refl, String, Option, none, some, List, [], ◌∷◌, map, ◌==◌, eq_iff,
  if◌then◌else◌, get, get-put, get-delete, count, count-append, count-remove_first, count-singleton,
  remove_first, arith, Option-cases, inl, inr, All,
}
use ugem.Types.{State}
use ugem.Goal.{GoalState, pending, active, Goal, Closures}
use ugem.GoalEngine.{
  GoalEngine, add_goal, remove_from_slices, remove_goal, activate_goal, add_pending, add_children,
  close_goal, child_of, spawn_children,
}

abbrev pub active_slot : GoalState → ℕ
active_slot active = 1
active_slot _ = 0

abbrev pub pending_slot : GoalState → ℕ
pending_slot pending = 1
pending_slot _ = 0

abbrev pub in_active : Option Goal → ℕ
in_active none = 0
in_active (some goal) = active_slot goal.state

abbrev pub in_pending : Option Goal → ℕ
in_pending none = 0
in_pending (some goal) = pending_slot goal.state

pub record IsFiled (g : GoalEngine) (id : String) : Type 0 where
  pub actives : count id g.active_goals ≡ in_active (get g.goals id)
  pub pendings : count id g.pending_goals ≡ in_pending (get g.goals id)

module _ (g : GoalEngine) (id : String) (filed : IsFiled g id) where
  pub add_goal-IsFiled : (goal : Goal) (now : ℕ) → IsFiled (add_goal g goal now).0 id
  unfolding add_goal
  add_goal-IsFiled goal now = ground (
    arith,
    filed.actives,
    filed.pendings,
    eq_iff goal.id id,
    get-put g.goals goal.id id
        (record goal { state = active; clock = g.clock; started_at = some now }),
    count-append id g.active_goals (goal.id ∷ []),
    count-singleton goal.id id,
  )

  pub remove_goal-IsFiled : (j : String) → IsFiled (remove_goal g j).0 id
  unfolding remove_goal remove_from_slices
  remove_goal-IsFiled j = ground (
    arith,
    filed.actives,
    filed.pendings,
    eq_iff j id,
    get-delete g.goals j id,
    count-remove_first j id g.active_goals,
    count-remove_first j id g.pending_goals,
  )

  pub close_goal-IsFiled :
      (j : String) (close : Goal → Goal)
      → ((goal : Goal) → active_slot (close goal).state ≡ 0)
      → ((goal : Goal) → pending_slot (close goal).state ≡ 0)
      → IsFiled (close_goal g j close).0 id
  unfolding remove_from_slices
  close_goal-IsFiled j close a p = elim (Option-cases (get g.goals j)) [
    | inl e ↦ rw (e, close_goal) filed
    | inr (goal, e) ↦
        rw (e, close_goal)
          (ground (
            arith,
            filed.actives,
            filed.pendings,
            eq_iff j id,
            get-put g.goals j id (close goal),
            count-remove_first j id g.active_goals,
            count-remove_first j id g.pending_goals,
            a goal,
            p goal,
          ))
  ]

  pub activate_goal-IsFiled : (j : String) → IsFiled (activate_goal g j).0 id
  unfolding activate_goal remove_from_slices
  activate_goal-IsFiled j = elim (Option-cases (get g.goals j)) [
    | inl e ↦ rw (e, activate_goal) filed
    | inr (goal, e) ↦
        rw (e, activate_goal)
          (ground (
            arith,
            filed.actives,
            filed.pendings,
            eq_iff j id,
            get-put g.goals j id (record goal { state = active }),
            count-remove_first j id g.active_goals,
            count-remove_first j id g.pending_goals,
            count-append id (remove_first j g.active_goals) (j ∷ []),
            count-singleton j id,
          ))
  ]

abbrev pub present {ℓ} : {A : Type ℓ} → Option A → ℕ
present none = 0
present (some _) = 1

add_pending-IsFiled :
    (g : GoalEngine) (id : String) (goal : Goal)
    → goal.state ≡ pending
    → IsFiled g id
    → (if goal.id == id then 1 else 0) + present (get g.goals id) ≤ 1
    → IsFiled (add_pending g goal) id
unfolding add_pending
add_pending-IsFiled g id goal waits filed fresh = ground (
  arith,
  filed.actives,
  filed.pendings,
  eq_iff goal.id id,
  get-put g.goals goal.id id goal,
  count-append id g.pending_goals (goal.id ∷ []),
  count-singleton goal.id id,
)

get-add_pending :
    (g : GoalEngine) (id : String) (goal : Goal)
    → present (get (add_pending g goal).goals id)
      ≤ (if goal.id == id then 1 else 0) + present (get g.goals id)
unfolding add_pending
get-add_pending g id goal = ground (arith, get-put g.goals goal.id id goal)

-- how often a name is among the names of some goals
abbrev pub named : String → List Goal → ℕ
named id goals = count id (map (λ (goal : Goal). goal.id) goals)

add_children-IsFiled :
    (g : GoalEngine) (id : String) (children : List Goal)
    → All (λ (child : Goal). child.state ≡ pending) children
    → IsFiled g id
    → named id children + present (get g.goals id) ≤ 1
    → IsFiled (add_children g children) id
unfolding add_children count
add_children-IsFiled g id [] waits filed fresh = filed
add_children-IsFiled g id (child ∷ children) waits filed fresh =
    add_children-IsFiled (add_pending g child) id children waits.1
      (add_pending-IsFiled g id child waits.0 filed (omega arith))
      (omega (arith, get-add_pending g id child))

children-pending :
    (g : GoalEngine) (goal : Goal) (spawned : List Goal)
    → All (λ (child : Goal). child.state ≡ pending) (map (child_of g goal) spawned)
children-pending g goal [] = tt
children-pending g goal (child ∷ spawned) = (refl, children-pending g goal spawned)

pub named-children :
    (g : GoalEngine) (goal : Goal) (id : String) (spawned : List Goal)
    → named id (map (child_of g goal) spawned) ≡ named id spawned
unfolding count
named-children g goal id [] = refl
named-children g goal id (child ∷ spawned) = omega (arith, named-children g goal id spawned)

pub spawn_children-IsFiled :
    (closures : Closures) (g : GoalEngine) (goal : Goal) (d : State) (id : String)
    → IsFiled g id
    → ((f : ℕ)
        → goal.spawn ≡ some f
        → named id (closures.spawns f d) + present (get g.goals id) ≤ 1)
    → IsFiled (spawn_children closures g goal d).0 id
unfolding spawn_children
spawn_children-IsFiled closures g goal d id filed fresh = elim (Option-cases goal.spawn) [
  | inl e ↦ rw e filed
  | inr (f, e) ↦
      let filed' =
        add_children-IsFiled g id (map (child_of g goal) (closures.spawns f d))
          (children-pending g goal (closures.spawns f d)) filed
          (omega (arith, fresh f e, named-children g goal id (closures.spawns f d))) in
      rw e (record { actives = filed'.actives; pendings = filed'.pendings })
]
