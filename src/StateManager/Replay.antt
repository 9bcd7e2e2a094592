-- ===== src/StateManager/Replay.antt =====
-- `Reconstruct` against the run that recorded the events.
use ugem.Prelude.{
  ℕ, ◌≡◌, sym, ap, ◌∙◌, String, ◌⊎◌, Option, none, some, List, [], ◌∷◌, eq_refl, false, subst, get,
  merge, arith, All,
}
use ugem.Types.{Error, ok, StateMutation, TypedValue, Event}
use ugem.StateManager.{
  StateManager, apply_event, apply_mutations, run_mutator, replay_mutator, replay_event,
  replay_loop, reconstruct, any_locked, check_invariants,
}
use ugem.StateManager.Events.{
  apply_event-none, get-apply_mutations, written, get-merge-written, apply_mutations-IsDistinct,
}

-- The live run: the events one after the other, up to the first that is refused.
unfoldable pub apply_events : StateManager → List Event → StateManager × Option Error
apply_events s [] = (s, none)
apply_events s (event ∷ events) =
    let (s', e) = apply_event s event in
    elim e [ some x ↦ (s', some x) | none ↦ apply_events s' events ]

-- An event that changes the state in one of the two ways only.
abbrev pub IsUnmixed : Event → Type 0
IsUnmixed event = (event.state_mutator ≡ none) ⊎ (event.state_mutations ≡ [])

pub replay_event-apply_event :
    (s s' : StateManager) (event : Event)
    → IsUnmixed event
    → apply_event s event ≡ (s', none)
    → replay_event s.data_map event ≡ s'.data_map
unfolding replay_event replay_mutator run_mutator apply_mutations
replay_event-apply_event s s' event u h =
    let (d, ran, after, _) = apply_event-none s s' event h in ground arith

apply_events-cons :
    (s s' : StateManager) (event : Event) (events : List Event)
    → apply_events s (event ∷ events) ≡ (s', none)
    → (s1 : StateManager) × (apply_event s event ≡ (s1, none))
      × (apply_events s1 events ≡ (s', none))
unfolding apply_events
apply_events-cons s s' event events h = ((apply_event s event).0, ground arith, ground arith)

replay_loop-apply_events :
    (s s' : StateManager) (clock : ℕ) (events : List Event)
    → All IsUnmixed events
    → apply_events s events ≡ (s', none)
    → (replay_loop s.data_map clock events).0 ≡ s'.data_map
unfolding replay_loop apply_events
replay_loop-apply_events s s' clock [] u h = ap (λ r. r.0.data_map) h
replay_loop-apply_events s s' clock (event ∷ events) u h =
    let (s1, one, rest) = apply_events-cons s s' event events h in
    subst (λ d. (replay_loop d event.clock events).0 ≡ s'.data_map)
      (sym (replay_event-apply_event s s1 event u.0 one))
      (replay_loop-apply_events s1 s' event.clock events u.1 rest)

-- Reconstruction is faithful: if the events were all accepted by a new manager with any invariants
-- and locks, and each uses a mutator or mutations but not both, then reconstructing from them gives
-- any manager the same data, entry by entry and in the same order.
reconstruct-apply_events :
    (s s' t : StateManager) (events : List Event)
    → s.data_map ≡ []
    → All IsUnmixed events
    → apply_events s events ≡ (s', none)
    → (reconstruct t events).data_map ≡ s'.data_map
unfolding reconstruct
reconstruct-apply_events s s' t events e u h = rw (← e) (replay_loop-apply_events s s' 0 events u h)

-- Where an event has both, writes no locked path and no invariant is registered, the orders differ: the live run takes the mutation's value of a path
-- that both write, and the reconstruction the mutator's.
mixed_event_diverges :
    (s t : StateManager) (event : Event) (path : String) (v w : TypedValue)
    → s.invariants ≡ []
    → any_locked s.locks event.write_paths ≡ false
    → event.state_mutator ≡ some (λ d. ok (record { path = path; value = v } ∷ []))
    → event.state_mutations ≡ record { path = path; value = w } ∷ []
    → (get (apply_event s event).0.data_map path ≡ some w)
      × (get (reconstruct t (event ∷ [])).data_map path ≡ some v)
unfolding apply_event run_mutator reconstruct replay_loop replay_event replay_mutator
    check_invariants
mixed_event_diverges s t event path v w no_inv free f ms =
    let sets : List StateMutation = record { path = path; value = v } ∷ [] in
    let muts : List StateMutation = record { path = path; value = w } ∷ [] in
    let d1 = apply_mutations [] muts in
    (
      rw (free, f, no_inv, ms)
          (get-apply_mutations (merge s.data_map (written s.data_map sets)) muts path
            ∙ (rw eq_refl)),
      rw (f, ms)
          (get-merge-written d1 sets path (apply_mutations-IsDistinct [] muts tt)
            ∙ get-apply_mutations (merge [] d1) sets path
            ∙ (rw eq_refl)),
    )
