-- ===== src/GoalEngine/Waking.antt =====
-- What `HandleEvent` does to one goal, in whatever order the goals are visited.
use ugem.Prelude.{
  ℕ, ◌+◌, ◌-◌, ◌≤◌, ◌<◌, ◌≡◌, String, Bool, true, some, List, [], ◌∷◌, eq_iff, if◌then◌else◌, get,
  get-put, contains, count, count-append, count-remove_first, count-singleton, ltb, arith, inl, inr,
  ◌⊎◌,
}
use ugem.Prelude.Sort.{sort, count-sort}
use ugem.Prelude.StringOrder.{str_ltb}
use ugem.Types.{State, Event}
use ugem.Goal.{pending, active, complete, Goal, Closures}
use ugem.GoalEngine.{
  GoalEngine, goal_of, Verdict, triggered, unsettled, verdict, is_triggered, is_unsettled, judged,
  remove_from_slices, remove_all, activate_triggered, activate_all, settle_all, handle_event,
}
use ugem.GoalEngine.Filing.{IsFiled, in_active, in_pending}
use ugem.GoalEngine.Settling.{NotMade, settle_all-IsKept}

count-judged :
    (wanted : Verdict → Bool) (g : GoalEngine) (writes ids : List String) (id : String)
    → count id (judged wanted g writes ids)
      ≡ (if wanted (verdict g writes id (goal_of g.goals id)) then count id ids else 0)
unfolding judged count
count-judged wanted g writes [] id = ground arith
count-judged wanted g writes (j ∷ ids) id =
    ground (arith, count-judged wanted g writes ids id, eq_iff j id)

verdict-triggered :
    (g : GoalEngine) (writes : List String) (id : String) (goal : Goal)
    → verdict g writes id goal ≡ triggered
    → goal.state ≡ pending
unfolding verdict
verdict-triggered g writes id goal h = ground arith

verdict-unsettled :
    (g : GoalEngine) (writes : List String) (id : String) (goal : Goal)
    → verdict g writes id goal ≡ unsettled
    → goal.state ≡ complete
unfolding verdict
verdict-unsettled g writes id goal h = ground arith

-- The first loop: the goals that are woken leave both lists.
remove_all_lem :
    (g : GoalEngine) (ids : List String) (id : String)
    → (count id (remove_all g ids).active_goals ≡ count id g.active_goals - count id ids)
      × (count id (remove_all g ids).pending_goals ≡ count id g.pending_goals - count id ids)
      × ((remove_all g ids).goals ≡ g.goals)
unfolding remove_all remove_from_slices count
remove_all_lem g [] id = ground arith
remove_all_lem g (j ∷ ids) id = ground (
  arith,
  remove_all_lem (remove_from_slices g j) ids id,
  count-remove_first j id g.active_goals,
  count-remove_first j id g.pending_goals,
)

-- The second loop: they stand in the active list, and are active.
activate_all_lem :
    (g : GoalEngine) (ids : List String) (id : String)
    → (count id (activate_all g ids).active_goals ≡ count id g.active_goals + count id ids)
      × ((activate_all g ids).pending_goals ≡ g.pending_goals)
      × (get (activate_all g ids).goals id ≡ (
          if ltb 0 (count id ids)
          then some (record (goal_of g.goals id) { state = active })
          else get g.goals id))
unfolding activate_all activate_triggered count
activate_all_lem g [] id = ground arith
activate_all_lem g (j ∷ ids) id = ground (
  arith,
  activate_all_lem (activate_triggered g j) ids id,
  eq_iff j id,
  get-put g.goals j id (record (goal_of g.goals j) { state = active }),
  count-append id g.active_goals (j ∷ []),
  count-singleton j id,
)

-- The engine after the goals that are woken are active.
woken_engine : GoalEngine → List String → List String → GoalEngine
woken_engine g order writes =
    let woken = judged is_triggered g writes order in
    activate_all (remove_all g woken) (sort str_ltb woken)

handle_event_cases :
    (closures : Closures) (d : State) (g : GoalEngine) (order : List String) (event : Event)
    → (event.write_paths ≡ []) × (handle_event closures d g order event ≡ g)
      ⊎ (handle_event closures d g order event
          ≡ settle_all closures d
              (woken_engine g order event.write_paths)
              (judged is_unsettled g event.write_paths order))
unfolding handle_event woken_engine
handle_event_cases closures d g order event = ground arith

module _ (g : GoalEngine) (order writes : List String) (id : String) where
  abbrev woken_count : ℕ
  woken_count = count id (judged is_triggered g writes order)

  woken_engine_lem :
      (count id (woken_engine g order writes).active_goals
        ≡ count id g.active_goals - woken_count + woken_count)
      × (count id (woken_engine g order writes).pending_goals
          ≡ count id g.pending_goals - woken_count)
      × (get (woken_engine g order writes).goals id ≡ (
          if ltb 0 woken_count
          then some (record (goal_of g.goals id) { state = active })
          else get g.goals id))
  unfolding woken_engine
  woken_engine_lem =
      let woken = judged is_triggered g writes order in
      let (actives, pendings, goals) = remove_all_lem g woken id in
      ground (
        arith,
        actives,
        pendings,
        goals,
        activate_all_lem (remove_all g woken) (sort str_ltb woken) id,
        count-sort str_ltb id woken,
      )

  woken_engine-IsFiled :
      count id order ≤ 1 → IsFiled g id → IsFiled (woken_engine g order writes) id
  woken_engine-IsFiled once filed = ground (
    arith,
    filed.actives,
    filed.pendings,
    woken_engine_lem,
    count-judged is_triggered g writes order id,
    verdict-triggered g writes id (goal_of g.goals id),
  )

  -- An unsettled goal is complete, so it is in neither list, and is not woken.
  unsettled_idle :
      count id order ≤ 1
      → 0 < count id (judged is_unsettled g writes order)
      → (in_active (get (woken_engine g order writes).goals id) ≡ 0)
        × (in_pending (get (woken_engine g order writes).goals id) ≡ 0)
  unsettled_idle once some_upset = ground (
    arith,
    woken_engine_lem,
    count-judged is_triggered g writes order id,
    count-judged is_unsettled g writes order id,
    verdict-unsettled g writes id (goal_of g.goals id),
    verdict-triggered g writes id (goal_of g.goals id),
  )

-- Handling an event keeps a goal filed where it belongs, in whatever order the goals are visited, if
-- the visit meets the goal at most once and no compensation is made under its name.
pub handle_event-IsFiled :
    (closures : Closures) (d : State) (g : GoalEngine) (order : List String) (event : Event)
    (id : String)
    → count id order ≤ 1
    → NotMade closures id
    → IsFiled g id
    → IsFiled (handle_event closures d g order event) id
handle_event-IsFiled closures d g order event id once other filed =
    elim (handle_event_cases closures d g order event) [
      | inl (_, e) ↦ rw e filed
      | inr e ↦
          let woken = woken_engine-IsFiled g order event.write_paths id once filed in
          let kept =
            settle_all-IsKept closures d (woken_engine g order event.write_paths)
              (judged is_unsettled g event.write_paths order) id other
              (unsettled_idle g order event.write_paths id once) in
          rw e (record {
            actives = omega (arith, kept.actives, kept.as_active, woken.actives);
            pendings = omega (arith, kept.pendings, kept.as_pending, woken.pendings);
          })
    ]

-- A pending goal whose trigger path the event writes is woken: afterwards it is active, stands once
-- in the active list and no more in the pending one. The goal is filed where its state says, the visit
-- meets it once, and the client's functions never make a compensation under its id: such a one would
-- replace the woken goal by a pending one.
pub handle_event-wakes :
    (closures : Closures) (d : State) (g : GoalEngine) (order : List String) (event : Event)
    (id path : String) (goal : Goal)
    → get g.goals id ≡ some goal
    → goal.state ≡ pending
    → goal.trigger.path ≡ some path
    → contains path event.write_paths ≡ true
    → count id order ≡ 1
    → NotMade closures id
    → IsFiled g id
    → let g' = handle_event closures d g order event in
      (in_active (get g'.goals id) ≡ 1)
      × (count id g'.active_goals ≡ 1)
      × (count id g'.pending_goals ≡ 0)
unfolding verdict contains
handle_event-wakes closures d g order event id path goal e waits t writes once other filed =
    elim (handle_event_cases closures d g order event) [
      | inl (none_written, _) ↦ absurd (ground arith)
      | inr eq ↦
          let kept =
            settle_all-IsKept closures d (woken_engine g order event.write_paths)
              (judged is_unsettled g event.write_paths order) id other
              (unsettled_idle g order event.write_paths id (omega arith)) in
          rw eq (
            ground (
              arith,
              kept.actives,
              kept.pendings,
              kept.as_active,
              filed.actives,
              filed.pendings,
              woken_engine_lem g order event.write_paths id,
              count-judged is_triggered g event.write_paths order id,
            ))
    ]
