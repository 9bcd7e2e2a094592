-- ===== src/StateManager/Reachable.antt =====
-- What every sequence of calls keeps: each lock is counted, and no path has two values.
use ugem.Prelude.{
  ℕ, ◌+◌, ◌-◌, ◌≡◌, ◌≢◌, subst, String, Option, none, some, List, [], ◌∷◌, GoMap, ◌==◌, eq_iff, put,
  put-IsDistinct, merge, merge-IsDistinct, IsDistinct, arith, Bool-cases, Option-cases, inl, inr,
  refl, ◌⊎◌, get,
}
use ugem.Prelude.Int.{pos, ◌+ℤ◌, ◌-ℤ◌}
use ugem.Types.{Error, Result, ok, err, State, Mutator, TypedValue, Event}
use ugem.StateManager.{
  PathLock, Invariant, Snapshot, StateManager, new_state_manager, register_invariant, set_path,
  has_empty, lock_of, acquire, released, release, lock_loop, lock, unlock_loop, unlock,
  take_snapshot, apply_snapshot, apply_event, run_mutator, apply_mutations, replay_mutator,
  replay_event, replay_loop, reconstruct, advance_clock,
}
use ugem.StateManager.Locks.{IsCounted, acquire-some, lock_of-put, lock_of-release}
use ugem.StateManager.Events.{
  apply_mutations-IsDistinct, apply_event-none, apply_event_frame, run_mutator-some, written,
}

abbrev AllCounted : GoMap PathLock → Type 0
AllCounted locks = (path : String) → IsCounted (lock_of locks path)

taken-IsCounted :
    (owner : String) (l : PathLock)
    → owner ≢ ""
    → IsCounted l
    → IsCounted (record { owner = owner; refs = l.refs +ℤ pos 1 })
unfolding ◌+ℤ◌
taken-IsCounted owner l named c = record {
  uses = c.uses + 1;
  counted = ground (arith, c.counted);
  free = λ e. absurd (omega arith);
  held = λ _. named;
}

released-IsCounted : (l : PathLock) → l.owner ≢ "" → IsCounted l → IsCounted (released l)
unfolding released ◌-ℤ◌
released-IsCounted l named c = record {
  uses = c.uses - 1;
  counted = ground (arith, c.counted, c.free);
  free = λ e. ground (arith, c.counted, c.free);
  held = λ p. ground (arith, c.counted, c.free);
}

put-AllCounted :
    (locks : GoMap PathLock) (path : String) (l : PathLock)
    → IsCounted l
    → AllCounted locks
    → AllCounted (put locks path l)
put-AllCounted locks path l c all j = elim (Bool-cases (path == j)) [
  | inl e ↦ rw (lock_of-put locks path j l, e) c
  | inr n ↦ rw (lock_of-put locks path j l, n) (all j)
]

release-AllCounted :
    (owner path : String) (locks : GoMap PathLock)
    → owner ≢ ""
    → AllCounted locks
    → AllCounted (release owner path locks)
release-AllCounted owner path locks named all j = elim (Bool-cases (path == j)) [
  | inl e ↦ elim (Bool-cases ((lock_of locks j).owner == owner)) [
    | inl f ↦
        rw (lock_of-release owner path j locks named, e, f)
          (released-IsCounted (lock_of locks j)
            (ground (arith, eq_iff (lock_of locks j).owner owner)) (all j))
    | inr f ↦ rw (lock_of-release owner path j locks named, e, f) (all j)
  ]
  | inr n ↦ rw (lock_of-release owner path j locks named, n) (all j)
]

lock_loop-AllCounted :
    (owner : String) (paths : List String) (locks : GoMap PathLock)
    → owner ≢ ""
    → AllCounted locks
    → AllCounted (lock_loop owner paths locks).0
unfolding lock_loop
lock_loop-AllCounted owner [] locks named all = all
lock_loop-AllCounted owner (path ∷ paths) locks named all =
    elim (Option-cases (acquire owner path locks)) [
      | inl e ↦ rw (e, lock_loop) all
      | inr (locks', e) ↦
          rw (e, lock_loop)
            (lock_loop-AllCounted owner paths locks' named (
              rw (acquire-some owner path locks e).0 (
                put-AllCounted locks path _
                  (taken-IsCounted owner (lock_of locks path) named (all path)) all)))
    ]

unlock_loop-AllCounted :
    (owner : String) (paths : List String) (locks : GoMap PathLock)
    → owner ≢ ""
    → AllCounted locks
    → AllCounted (unlock_loop owner paths locks)
unfolding unlock_loop
unlock_loop-AllCounted owner [] locks named all = all
unlock_loop-AllCounted owner (path ∷ paths) locks named all =
    unlock_loop-AllCounted owner paths (release owner path locks) named
      (release-AllCounted owner path locks named all)

Result-cases {ℓ} :
    {A : Type ℓ} (r : Result A) → ((e : Error) × (r ≡ err e)) ⊎ ((a : A) × (r ≡ ok a))
Result-cases (err e) = inl (e, refl)
Result-cases (ok a) = inr (a, refl)

ok_injective {ℓ} : {A : Type ℓ} {a b : A} → ok a ≡ ok b → a ≡ b
ok_injective h = cc

locks-apply_event : (s : StateManager) (event : Event) → (apply_event s event).0.locks ≡ s.locks
unfolding apply_event
locks-apply_event s event = ground arith

replay_mutator-IsDistinct :
    (f : Option Mutator) (d : State) → IsDistinct d → IsDistinct (replay_mutator f d)
unfolding replay_mutator
replay_mutator-IsDistinct none d h = h
replay_mutator-IsDistinct (some f) d h = elim (Result-cases (f d)) [
  | inl (e, failed) ↦ rw (failed, replay_mutator) h
  | inr (sets, wrote) ↦
      rw (wrote, replay_mutator) (merge-IsDistinct d (apply_mutations (merge [] d) sets) h)
]

run_mutator-IsDistinct :
    (f : Option Mutator) (invs : List Invariant) (d d' : State)
    → IsDistinct d
    → run_mutator f invs d ≡ ok d'
    → IsDistinct d'
unfolding run_mutator
run_mutator-IsDistinct none invs d d' h e = subst IsDistinct (ok_injective e) h
run_mutator-IsDistinct (some f) invs d d' h e =
    let (sets, _, _, merged) = run_mutator-some f invs d e in
    rw merged (merge-IsDistinct d (written d sets) h)

apply_event-IsDistinct :
    (s : StateManager) (event : Event)
    → IsDistinct s.data_map
    → IsDistinct (apply_event s event).0.data_map
apply_event-IsDistinct s event h = elim (Option-cases (apply_event s event).1) [
  | inl accepted ↦
      let (d, ran, after, _) = apply_event-none s (apply_event s event).0 event (ground arith) in
      rw after (
        apply_mutations-IsDistinct d event.state_mutations
          (run_mutator-IsDistinct event.state_mutator s.invariants s.data_map d h ran))
  | inr (e, refused) ↦
      rw
        ((apply_event_frame s (apply_event s event).0 event (some e) (ground arith)).0
          (λ same. cc same))
        h
]

replay_loop-IsDistinct :
    (d : State) (clock : ℕ) (events : List Event)
    → IsDistinct d
    → IsDistinct (replay_loop d clock events).0
unfolding replay_loop replay_event
replay_loop-IsDistinct d clock [] h = h
replay_loop-IsDistinct d clock (event ∷ events) h =
    replay_loop-IsDistinct (replay_event d event) event.clock events (
      replay_mutator-IsDistinct event.state_mutator (apply_mutations d event.state_mutations)
        (apply_mutations-IsDistinct d event.state_mutations h))

-- One call of a method that changes the manager, by an owner with a name.
pub data Step (s : StateManager) : StateManager → Type 0 where
  setting : (path : String) (v : TypedValue) → Step s (set_path s path v).0
  locking : (paths : List String) (owner : String) → owner ≢ "" → Step s (lock s paths owner).0
  unlocking : (paths : List String) (owner : String) → owner ≢ "" → Step s (unlock s paths owner)
  snapping : Step s (take_snapshot s).0
  applying : (snap : Snapshot) → Step s (apply_snapshot s snap)
  happening : (event : Event) → Step s (apply_event s event).0
  rebuilding : (events : List Event) → Step s (reconstruct s events)
  ticking : Step s (advance_clock s).0
  registering : (inv : Invariant) → Step s (register_invariant s inv)

pub data Reach : StateManager → Type 0 where
  start : Reach new_state_manager
  next : {s t : StateManager} → Reach s → Step s t → Reach t

pub record IsValid (s : StateManager) : Type 0 where
  pub distinct : IsDistinct s.data_map
  pub counted : (path : String) → IsCounted (lock_of s.locks path)

Step-IsValid : {s t : StateManager} → Step s t → IsValid s → IsValid t
unfolding set_path lock unlock take_snapshot apply_snapshot reconstruct advance_clock
    register_invariant
Step-IsValid {s} (setting path v) h = elim (Bool-cases (path == "")) [
  | inl e ↦ rw e h
  | inr e ↦
      rw e (record { distinct = put-IsDistinct s.data_map path v h.distinct; counted = h.counted })
]
Step-IsValid {s} (locking paths owner named) h = elim (Bool-cases (has_empty paths)) [
  | inl e ↦ rw e h
  | inr e ↦ rw e (record {
    distinct = h.distinct;
    counted = lock_loop-AllCounted owner paths s.locks named h.counted;
  })
]
Step-IsValid {s} (unlocking paths owner named) h = record {
  distinct = h.distinct;
  counted = unlock_loop-AllCounted owner paths s.locks named h.counted;
}
Step-IsValid snapping h = record { distinct = h.distinct; counted = h.counted }
Step-IsValid (applying snap) h = record {
  distinct = merge-IsDistinct [] snap.state tt;
  counted = h.counted;
}
Step-IsValid {s} (happening event) h = record {
  distinct = apply_event-IsDistinct s event h.distinct;
  counted = rw (locks-apply_event s event) h.counted;
}
Step-IsValid (rebuilding events) h = record {
  distinct = replay_loop-IsDistinct [] 0 events tt;
  counted = h.counted;
}
Step-IsValid ticking h = record { distinct = h.distinct; counted = h.counted }
Step-IsValid (registering inv) h = record { distinct = h.distinct; counted = h.counted }

-- After any calls, of owners with a name, on a new manager: every lock is counted by a natural
-- number, and has an owner exactly while that is positive; and no path stands twice in the data.
pub Reach-IsValid : {s : StateManager} → Reach s → IsValid s
unfolding lock_of get
Reach-IsValid start = record {
  distinct = tt;
  counted = λ path. record {
    uses = 0;
    counted = refl;
    free = λ _. refl;
    held = λ p. absurd (omega arith);
  };
}
Reach-IsValid (next r step) = Step-IsValid step (Reach-IsValid r)
