-- ===== src/Kernel/Results.antt =====
-- What a plan does to the state.
use ugem.Prelude.{
  ℕ, ◌+◌, ◌≡◌, refl, ap, ◌∙◌, Bool, true, false, Option, none, some, List, [], ◌∷◌, GoMap, arith,
  Bool-cases, inl, inr,
}
use ugem.Types.{Error, Event, Value, State, Result, ok, err}
use ugem.StateManager.{apply_event, run_mutator, apply_mutations, get_path}
use ugem.EventLog.{EventLog, append}
use ugem.Goal.{Goal}
use ugem.Dispatcher.{ActionDispatcher, execute_with_retry}
use ugem.Planner.{Action, Plan, new_planner}
use ugem.Planner.Bare.{resolve-none}
use ugem.Kernel.{Runtime, Outside, traced, numbered, settle_event, submit_event}
use ugem.Kernel.Recording.{logged_event, submit_event-eq-logged_event}
use ugem.Kernel.Processing.{
  PlanRun, result_event, submit_event_from_action, action_trace, submit_output, execute_actions,
  execute_plan, compute_missing_conditions, simulate, action_ids,
}

abbrev data_of : Runtime → State
data_of r = r.state_manager.data_map

settle_event-data_of :
    (out : Outside) (r : Runtime) (event : Event)
    → event.state_mutator ≡ none
    → event.state_mutations ≡ []
    → data_of (settle_event out r event).0 ≡ data_of r
unfolding settle_event apply_event run_mutator apply_mutations
settle_event-data_of out r event f ms = ground (arith, f, ms)

traced_lem :
    (out : Outside) (event : Event) (id : ℕ)
    → ((numbered id (traced out event)).state_mutator ≡ event.state_mutator)
      × ((numbered id (traced out event)).state_mutations ≡ event.state_mutations)
traced_lem out event id = ground arith

submit_event-data_of :
    (out : Outside) (r : Runtime) (event : Event)
    → event.state_mutator ≡ none
    → event.state_mutations ≡ []
    → data_of (submit_event out r event).0 ≡ data_of r
unfolding submit_event logged_event
submit_event-data_of out r event f ms = elim (Bool-cases r.running) [
  | inl up ↦
      ap (λ x. data_of x.0) (submit_event-eq-logged_event out r event up)
      ∙ after (append r.event_log (traced out event) out.now out.disk)
  | inr down ↦ rw down refl
]
  where
    after :
        (logged : EventLog × Result ℕ)
        → data_of (logged_event out r (traced out event) logged).0 ≡ data_of r
    after (log, err e) = refl
    after (log, ok id) =
        let (f', ms') = traced_lem out event id in
        settle_event-data_of out (record r { event_log = log }) (numbered id (traced out event))
          (f' ∙ f) (ms' ∙ ms)

submit_output-data_of :
    (out : Outside) (is_nil : Bool) (r : Runtime) (g : Goal) (action : Action)
    (answer : Option (GoMap Value) × Option Error)
    → data_of (submit_output out is_nil r g action answer) ≡ data_of r
unfolding submit_output submit_event_from_action
submit_output-data_of out is_nil r g action (result, some e) = refl
submit_output-data_of out is_nil r g action (none, none) = refl
submit_output-data_of out true r g action (some output, none) = refl
submit_output-data_of out false r g action (some output, none) =
    submit_event-data_of out r (result_event output action (action_trace g action)) refl refl

execute_actions-data_of :
    (run : PlanRun) (g : Goal) (i : ℕ) (actions : List Action) (r : Runtime) (ad : ActionDispatcher)
    → data_of (execute_actions run g i actions r ad).0 ≡ data_of r
unfolding execute_actions
execute_actions-data_of run g i [] r ad = refl
execute_actions-data_of run g i (action ∷ actions) r ad =
    let (ad', result, e) =
      execute_with_retry (run.attempts i) action.id "0" action.input action.retries ad in
    execute_actions-data_of run g (i + 1) actions
      (submit_output (run.outside i) (run.is_nil i) r g action (result, e)) ad'
    ∙ submit_output-data_of (run.outside i) (run.is_nil i) r g action (result, e)

-- A plan changes no data, whatever its actions return, since the events that carry their outputs have
-- neither a mutator nor mutations: what a goal missed before its plan it misses after.
pub execute_plan-compute_missing_conditions :
    (run : PlanRun) (plan : Plan) (g : Goal) (r : Runtime) (ad : ActionDispatcher)
    → let r' = (execute_plan run plan g r ad).0 in
      (r'.state_manager.data_map ≡ r.state_manager.data_map)
      × (compute_missing_conditions r' g ≡ compute_missing_conditions r g)
unfolding execute_plan compute_missing_conditions get_path
execute_plan-compute_missing_conditions run plan g r ad =
    let same = execute_actions-data_of run g 0 plan.actions r ad in
    (
      same,
      ap
          (λ d.
            compute_missing_conditions
              (record r { state_manager = record r.state_manager { data_map = d } }) g)
          same,
    )

-- `Simulate` gives no actions, on any runtime and for any goal: no action is registered with the
-- planner that it asks.
simulate-nil : (r : Runtime) (g : Goal) → simulate r g ≡ []
unfolding simulate action_ids
simulate-nil r g = rw (resolve-none new_planner refl (compute_missing_conditions r g)) refl
