-- ===== src/StateManager.antt =====
-- runtime/state_manager.go: the state, its locks, its snapshots, and the events that change it.
-- A method returns the new manager with its result. The mutexes only make each method atomic, and
-- the writes of `persistChanges` to the object store leave the manager as it is: both are left out.
mod Locks
pub mod Exclusion
pub mod Events
pub mod Replay
pub mod Snapshots
pub mod Reachable
mod Samples
use ugem.Prelude.{
  ℕ, ◌+◌, String, Bool, false, not, ◌&&◌, ◌||◌, Option, none, some, List, [], ◌∷◌, ◌++◌, GoMap,
  ◌==◌, if◌then◌else◌, u64, get, put, merge,
}
use ugem.Prelude.Int.{ℤ, pos, ◌+ℤ◌, ◌-ℤ◌, eqb_ℤ}
use ugem.Types.{
  TypedValue, StateMutation, Error, path_locked, invalid_path, invariant_breached, Result, ok, err,
  State, Mutator, Event, typed_eq,
}

pub record PathLock : Type 0 where
  pub owner : String
  pub refs : ℤ

pub record Snapshot : Type 0 where
  pub id : ℕ
  pub clock : ℕ
  pub state : State

-- `Predicate` answers `nil` (true) or an error.
pub record Invariant : Type 0 where
  pub name : String
  pub predicate : State → Bool

pub record StateManager : Type 0 where
  pub data_map : State
  pub locks : GoMap PathLock
  pub clock : ℕ  -- uint64
  pub snapshots : List Snapshot
  pub snapshot_id : ℕ  -- uint64
  pub version : ℕ  -- uint64
  pub invariants : List Invariant

abbrev pub new_state_manager : StateManager
new_state_manager = record {
  data_map = [];
  locks = [];
  clock = 0;
  snapshots = [];
  snapshot_id = 0;
  version = 0;
  invariants = [];
}

pub register_invariant : StateManager → Invariant → StateManager
register_invariant s inv = record s { invariants = s.invariants ++ inv ∷ [] }

-- The first invariant that the state breaks, in the order of registration.
unfoldable pub check_invariants : List Invariant → State → Option Error
check_invariants [] d = none
check_invariants (inv ∷ invs) d =
    if inv.predicate d then check_invariants invs d else some (invariant_breached inv.name)

unfoldable pub get_path : StateManager → String → Option TypedValue
get_path s path = get s.data_map path

unfoldable pub set_path : StateManager → String → TypedValue → StateManager × Option Error
set_path s path value =
    if path == ""
    then (s, some invalid_path)
    else (record s { data_map = put s.data_map path value; version = u64 (s.version + 1) }, none)

-- `&pathLock{}`
abbrev pub no_lock : PathLock
no_lock = record { owner = ""; refs = pos 0 }

-- The lock of a path, a new one where there is none.
unfoldable pub lock_of : GoMap PathLock → String → PathLock
lock_of locks path = elim (get locks path) [ none ↦ no_lock | some l ↦ l ]

unfoldable pub has_empty : List String → Bool
has_empty [] = false
has_empty (path ∷ paths) = path == "" || has_empty paths

-- The body of the second loop of `Lock`: `none` where another owner has the path.
unfoldable pub acquire : String → String → GoMap PathLock → Option (GoMap PathLock)
acquire owner path locks =
    let l = lock_of locks path in
    if not (l.owner == "") && not (l.owner == owner)
    then none
    else some (put locks path (record { owner = owner; refs = l.refs +ℤ pos 1 }))

-- What was taken before the conflict stays taken.
unfoldable pub lock_loop : String → List String → GoMap PathLock → GoMap PathLock × Option Error
lock_loop owner [] locks = (locks, none)
lock_loop owner (path ∷ paths) locks = elim (acquire owner path locks) [
  | none ↦ (locks, some path_locked)
  | some locks' ↦ lock_loop owner paths locks'
]

unfoldable pub lock : StateManager → List String → String → StateManager × Option Error
lock s paths owner =
    if has_empty paths
    then (s, some invalid_path)
    else (let (locks, e) = lock_loop owner paths s.locks in (record s { locks = locks }, e))

unfoldable pub released : PathLock → PathLock
released l =
    let refs = l.refs -ℤ pos 1 in
    record { owner = if eqb_ℤ refs (pos 0) then "" else l.owner; refs = refs }

-- The body of the loop of `Unlock`.
unfoldable pub release : String → String → GoMap PathLock → GoMap PathLock
unfolding released
release owner path locks = elim (get locks path) [
  | none ↦ locks
  | some l ↦ if l.owner == owner then put locks path (released l) else locks
]

unfoldable pub unlock_loop : String → List String → GoMap PathLock → GoMap PathLock
unlock_loop owner [] locks = locks
unlock_loop owner (path ∷ paths) locks = unlock_loop owner paths (release owner path locks)

unfoldable pub unlock : StateManager → List String → String → StateManager
unlock s paths owner = record s { locks = unlock_loop owner paths s.locks }

unfoldable pub is_locked : StateManager → String → Bool
is_locked s path = not ((lock_of s.locks path).owner == "")

unfoldable pub get_lock_owner : StateManager → String → String × Bool
get_lock_owner s path = let owner = (lock_of s.locks path).owner in (owner, not (owner == ""))

-- `Snapshot`, and `GetSnapshot`, copy the state. The copy is kept under its number.
unfoldable pub take_snapshot : StateManager → StateManager × Snapshot
take_snapshot s =
    let snap : Snapshot = record {
      id = s.snapshot_id;
      clock = s.clock;
      state = merge [] s.data_map;
    } in
    (record s { snapshots = snap ∷ s.snapshots; snapshot_id = u64 (s.snapshot_id + 1) }, snap)

unfoldable pub apply_snapshot : StateManager → Snapshot → StateManager
apply_snapshot s snap = record s {
  data_map = merge [] snap.state;
  clock = snap.clock;
  version = u64 (s.version + 1);
}

-- The two loops of `Diff`: what is new or other than before, and what is gone.
unfoldable pub note_changed : State → String → TypedValue → State → State
note_changed before k v diff = elim (get before k) [
  | none ↦ put diff k v
  | some bv ↦ if typed_eq bv v then diff else put diff k v
]

unfoldable pub changed : State → State → State → State
changed before [] diff = diff
changed before ((k, v) ∷ d) diff = changed before d (note_changed before k v diff)

unfoldable pub note_gone : State → String → TypedValue → State → State
note_gone now k v diff = elim (get now k) [ none ↦ put diff k v | some _ ↦ diff ]

unfoldable pub gone : State → State → State → State
gone now [] diff = diff
gone now ((k, v) ∷ before) diff = gone now before (note_gone now k v diff)

unfoldable pub diff : StateManager → Snapshot → State
diff s before = gone s.data_map before.state (changed before.state s.data_map [])

-- `s.data[m.Path] = m.Value` for each mutation
unfoldable pub apply_mutations : State → List StateMutation → State
apply_mutations d [] = d
apply_mutations d (m ∷ ms) = apply_mutations (put d m.path m.value) ms

-- A write path that anyone has locked stops the event.
unfoldable pub any_locked : GoMap PathLock → List String → Bool
any_locked locks [] = false
any_locked locks (path ∷ paths) = not ((lock_of locks path).owner == "") || any_locked locks paths

-- The mutator runs on a copy; what it leaves there is checked, and copied back.
unfoldable pub run_mutator : Option Mutator → List Invariant → State → Result State
run_mutator none invs d = ok d
run_mutator (some f) invs d = elim (f d) [
  | err e ↦ err e
  | ok sets ↦
      let copy = apply_mutations (merge [] d) sets in
      elim (check_invariants invs copy) [ some e ↦ err e | none ↦ ok (merge d copy) ]
]

abbrev pub tick : StateManager → State → StateManager
tick s d = record s { data_map = d; clock = u64 (s.clock + 1); version = u64 (s.version + 1) }

unfoldable pub apply_event : StateManager → Event → StateManager × Option Error
apply_event s event =
    if any_locked s.locks event.write_paths
    then (s, some path_locked)
    else elim (run_mutator event.state_mutator s.invariants s.data_map) [
      | err e ↦ (s, some e)
      | ok d ↦ (tick s (apply_mutations d event.state_mutations), none)
    ]

-- A mutator that fails is passed over, and no invariant is checked.
unfoldable pub replay_mutator : Option Mutator → State → State
replay_mutator none d = d
replay_mutator (some f) d = elim (f d) [
  | err _ ↦ d
  | ok sets ↦ merge d (apply_mutations (merge [] d) sets)
]

-- The body of the loop of `Reconstruct`, on the data: mutations first, then the mutator.
unfoldable pub replay_event : State → Event → State
unfolding replay_mutator apply_mutations
replay_event d event = replay_mutator event.state_mutator (apply_mutations d event.state_mutations)

unfoldable pub replay_loop : State → ℕ → List Event → State × ℕ
replay_loop d clock [] = (d, clock)
replay_loop d clock (event ∷ events) = replay_loop (replay_event d event) event.clock events

unfoldable pub reconstruct : StateManager → List Event → StateManager
unfolding replay_loop replay_event
reconstruct s events =
    let (d, clock) = replay_loop [] 0 events in
    record s { data_map = d; clock = clock; version = u64 (0 + 1) }

unfoldable pub advance_clock : StateManager → StateManager × ℕ
advance_clock s = let now = u64 (s.clock + 1) in (record s { clock = now }, now)
