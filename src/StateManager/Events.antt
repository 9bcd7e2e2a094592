-- ===== src/StateManager/Events.antt =====
-- `ApplyEvent` on each of its branches, and the invariants of the state.
use ugem.Prelude.{
  ◌≡◌, ◌≢◌, refl, String, true, false, Option, none, some, List, [], ◌∷◌, if◌then◌else◌, GoMap,
  ◌==◌, eq_iff, u64, ◌+◌, get, put, get-put, get-nil, get-merge, put-IsDistinct, merge,
  merge-IsDistinct, IsDistinct, or_else, contains, count_of-contains, ◌∙◌, arith, All, Option-cases,
  inl, inr, ◌⊎◌,
}
use ugem.Types.{Error, path_locked, ok, State, StateMutation, TypedValue, Mutator, Event}
use ugem.StateManager.{
  PathLock, Invariant, StateManager, lock_of, lock, any_locked, apply_event, apply_mutations,
  run_mutator, check_invariants,
}
use ugem.StateManager.Exclusion.{lock-IsTaken}

any_locked_of-contains :
    (locks : GoMap PathLock) (path : String) (paths : List String)
    → contains path paths ≡ true
    → (lock_of locks path).owner ≢ ""
    → any_locked locks paths ≡ true
unfolding any_locked contains
any_locked_of-contains locks path [] h held = absurd (cc h)
any_locked_of-contains locks path (p ∷ paths) h held = ground (
  arith,
  any_locked_of-contains locks path paths,
  eq_iff p path,
  eq_iff (lock_of locks p).owner "",
)

-- Once an owner with a name has locked a path, an event that writes it is refused and changes
-- nothing.
pub lock-stops-apply_event :
    (s s' : StateManager) (paths : List String) (path owner : String) (event : Event)
    → lock s paths owner ≡ (s', none)
    → owner ≢ ""
    → contains path paths ≡ true
    → contains path event.write_paths ≡ true
    → apply_event s' event ≡ (s', some path_locked)
unfolding apply_event
lock-stops-apply_event s s' paths path owner event h named mine writes =
    let taken = lock-IsTaken s s' paths owner path h in
    let held : (lock_of s'.locks path).owner ≢ "" =
      ground (arith, taken, count_of-contains path paths mine) in
    rw (any_locked_of-contains s'.locks path event.write_paths writes held)

pub apply_event_frame :
    (s s' : StateManager) (event : Event) (e : Option Error)
    → apply_event s event ≡ (s', e)
    → (e ≢ none → s' ≡ s)
      × (e ≡ none
          → (s'.clock ≡ u64 (s.clock + 1))
            × (s'.version ≡ u64 (s.version + 1))
            × (s'.locks ≡ s.locks)
            × (s'.snapshots ≡ s.snapshots)
            × (s'.invariants ≡ s.invariants))
unfolding apply_event
apply_event_frame s s' event e h = ground arith

-- An event that is refused leaves the whole manager as it was; one that is accepted advances clock
-- and version by one and leaves locks, snapshots and invariants alone.
apply_event_all_or_nothing :
    (s : StateManager) (event : Event)
    → ((e : Error) × (apply_event s event ≡ (s, some e)))
      ⊎ ((s' : StateManager) × (apply_event s event ≡ (s', none))
          × (s'.clock ≡ u64 (s.clock + 1))
          × (s'.version ≡ u64 (s.version + 1))
          × (s'.locks ≡ s.locks)
          × (s'.snapshots ≡ s.snapshots)
          × (s'.invariants ≡ s.invariants))
apply_event_all_or_nothing s event =
    let r = apply_event s event in
    let (refused, accepted) = apply_event_frame s r.0 event r.1 refl in
    elim (Option-cases r.1) [
      | inl e ↦
          let (clock, version, locks, snapshots, invariants) = accepted e in
          inr (r.0, (ground (arith, e)), clock, version, locks, snapshots, invariants)
      | inr (e, h) ↦ inl (e, ground (arith, h, refused (λ n. cc (n, h))))
    ]

-- What the mutations of an event write at a path: the last of them.
abbrev pub last_write : List StateMutation → String → Option TypedValue
last_write [] path = none
last_write (m ∷ ms) path =
    or_else (last_write ms path) (if m.path == path then some m.value else none)

pub get-apply_mutations :
    (d : State) (ms : List StateMutation) (path : String)
    → get (apply_mutations d ms) path ≡ or_else (last_write ms path) (get d path)
unfolding apply_mutations
get-apply_mutations d [] path = refl
get-apply_mutations d (m ∷ ms) path =
    ground
      (arith, get-apply_mutations (put d m.path m.value) ms path, get-put d m.path path m.value)

pub apply_mutations-IsDistinct :
    (d : State) (ms : List StateMutation) → IsDistinct d → IsDistinct (apply_mutations d ms)
unfolding apply_mutations
apply_mutations-IsDistinct d [] h = h
apply_mutations-IsDistinct d (m ∷ ms) h =
    apply_mutations-IsDistinct (put d m.path m.value) ms (put-IsDistinct d m.path m.value h)

-- A predicate that reads a state through `Get` cannot tell apart two maps with the same entries.
abbrev pub ReadsByGet : Invariant → Type 0
ReadsByGet inv =
    (d e : State) → ((path : String) → get d path ≡ get e path) → inv.predicate d ≡ inv.predicate e

check_invariants_cong :
    (invs : List Invariant) (d e : State)
    → All ReadsByGet invs
    → ((path : String) → get d path ≡ get e path)
    → check_invariants invs d ≡ check_invariants invs e
unfolding check_invariants
check_invariants_cong [] d e r h = refl
check_invariants_cong (inv ∷ invs) d e r h =
    ground (arith, r.0 d e h, check_invariants_cong invs d e r.1 h)

-- A copy of a state, after the mutator's writes.
abbrev pub written : State → List StateMutation → State
written d sets = apply_mutations (merge [] d) sets

-- Copying the written copy back leaves exactly what the copy holds: a mutator deletes nothing.
pub get-merge-written :
    (d : State) (sets : List StateMutation) (path : String)
    → IsDistinct d
    → get (merge d (written d sets)) path ≡ get (written d sets) path
get-merge-written d sets path h = ground (
  arith,
  get-merge d (written d sets) path
      (apply_mutations-IsDistinct (merge [] d) sets (merge-IsDistinct [] d tt)),
  get-apply_mutations (merge [] d) sets path,
  get-merge [] d path h,
  get-nil {V = TypedValue} path,
)

pub run_mutator-some :
    (f : Mutator) (invs : List Invariant) (d : State) {d' : State}
    → run_mutator (some f) invs d ≡ ok d'
    → (sets : List StateMutation) × (f d ≡ ok sets)
      × (check_invariants invs (written d sets) ≡ none)
      × (d' ≡ merge d (written d sets))
unfolding run_mutator
run_mutator-some f invs d h = ground arith

pub apply_event-none :
    (s s' : StateManager) (event : Event)
    → apply_event s event ≡ (s', none)
    → (d : State) × (run_mutator event.state_mutator s.invariants s.data_map ≡ ok d)
      × (s'.data_map ≡ apply_mutations d event.state_mutations)
      × (s'.invariants ≡ s.invariants)
unfolding apply_event
apply_event-none s s' event h = ground arith

-- An accepted event that changes the state by its mutator alone leaves every registered invariant
-- true, if the invariants read the state through `Get` and no path stands twice in the data.
pub apply_event-keeps-invariants :
    (s s' : StateManager) (event : Event) (f : Mutator)
    → All ReadsByGet s.invariants
    → IsDistinct s.data_map
    → event.state_mutator ≡ some f
    → event.state_mutations ≡ []
    → apply_event s event ≡ (s', none)
    → check_invariants s'.invariants s'.data_map ≡ none
unfolding apply_mutations
apply_event-keeps-invariants s s' event f reads distinct has_f no_ms h =
    let (d, ran, after, invs) = apply_event-none s s' event h in
    let (sets, _, checked, merged) = run_mutator-some f s.invariants s.data_map (rw has_f at ran) in
    rw (invs, after, no_ms, merged)
      (check_invariants_cong s.invariants (merge s.data_map (written s.data_map sets))
          (written s.data_map sets) reads (λ path. get-merge-written s.data_map sets path distinct)
        ∙ checked)

-- Declarative mutations are never checked: an event that carries no mutator and writes no locked
-- path is accepted, and its mutations are in the state, whatever invariants are registered.
apply_event_unchecked :
    (s : StateManager) (event : Event) (path : String)
    → event.state_mutator ≡ none
    → any_locked s.locks event.write_paths ≡ false
    → ((apply_event s event).1 ≡ none)
      × (get (apply_event s event).0.data_map path
          ≡ or_else (last_write event.state_mutations path) (get s.data_map path))
unfolding apply_event run_mutator
apply_event_unchecked s event path no_f free =
    ground (arith, get-apply_mutations s.data_map event.state_mutations path)
