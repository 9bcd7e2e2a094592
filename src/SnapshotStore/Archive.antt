-- ===== src/SnapshotStore/Archive.antt =====
-- storage/store.go: what a store of snapshots promises to its callers. An archive is a function from
-- numbers to snapshots; the directory, the counter and the recovery are not seen.
use ugem.Prelude.{
  ℕ, ◌+◌, ◌^◌, ◌≤◌, ◌<◌, ◌≡◌, Bool, true, Option, none, some, List, [], ◌∷◌, ◌||◌, false,
  if◌then◌else◌, nat_eq,
}
use ugem.Prelude.Numbered.{find, IsNumbered, Each}
use ugem.Types.{State, Error, Result, ok, err}
use ugem.SnapshotStore.{
  SnapshotStore, Snapshot, Access, save, load, latest, delete_snapshot, open_store,
}

pub data Call : Type 0 where
  save_call : Access → State → ℕ → ℕ → Call
  load_call : ℕ → Call
  -- the order of the visit
  latest_call : List ℕ → Call
  delete_call : Access → ℕ → Call
  -- the process ends, and the store is opened anew on its directory
  restart : Call

abbrev pub AnswerTo : Call → Type 0
AnswerTo (save_call access contents clock now) = Result ℕ
AnswerTo (load_call id) = Result Snapshot
AnswerTo (latest_call order) = Result Snapshot
AnswerTo (delete_call access id) = Option Error
AnswerTo restart = Unit {0}

unfoldable pub run_call : SnapshotStore → (c : Call) → SnapshotStore × AnswerTo c
unfolding save load latest delete_snapshot open_store
run_call ss (save_call access contents clock now) = save access ss contents clock now
run_call ss (load_call id) = (ss, load ss id)
run_call ss (latest_call order) = (ss, latest ss order)
run_call ss (delete_call access id) = delete_snapshot access ss id
run_call ss restart = (open_store ss.files, tt)

abbrev pub Archive : Type 0
Archive = ℕ → Option Snapshot

abbrev pub IsSame : Archive → Archive → Type 0
IsSame a b = (k : ℕ) → b k ≡ a k

-- A saved snapshot gets a number that is free, and nothing else changes; a snapshot is found under
-- its number; the latest is one with the greatest number, and there is one if there is any; a deleted
-- one was there, and only it is gone. What fails, and a restart, changes nothing.
abbrev pub Promises : Archive → (c : Call) → AnswerTo c → Archive → Type 0
Promises a (save_call access contents clock now) (ok id) b =
    (a id ≡ none)
    × ((k : ℕ)
        → b k ≡ (
            if nat_eq id k
            then some (record { id = id; clock = clock; timestamp = now; contents = contents })
            else a k))
Promises a (save_call access contents clock now) (err e) b = IsSame a b
Promises a (load_call id) (ok snap) b = (a id ≡ some snap) × IsSame a b
Promises a (load_call id) (err e) b = (a id ≡ none) × IsSame a b
Promises a (latest_call order) (ok snap) b =
    (a snap.id ≡ some snap)
    × ((k : ℕ) (other : Snapshot) → a k ≡ some other → k ≤ snap.id)
    × IsSame a b
Promises a (latest_call order) (err e) b = ((k : ℕ) → a k ≡ none) × IsSame a b
Promises a (delete_call access id) none b =
    ((snap : Snapshot) × (a id ≡ some snap)) × ((k : ℕ) → b k ≡ (if nat_eq id k then none else a k))
Promises a (delete_call access id) (some e) b = IsSame a b
Promises a restart answer b = IsSame a b

-- what the callers see of a store
abbrev pub view : SnapshotStore → Archive
view ss k = find ss.snapshots k

-- The memory holds what the directory holds, each snapshot under its number, all of them below the
-- next one.
pub record IsKept (ss : SnapshotStore) : Type 0 where
  pub mirrored : (k : ℕ) → find ss.snapshots k ≡ find ss.files k
  pub numbered : IsNumbered ss.files
  pub each : Each (λ (k : ℕ) (snap : Snapshot). (snap.id ≡ k) × (k < ss.next_id)) ss.files
  pub bounded : ss.next_id < 2 ^ 64

abbrev pub includes : ℕ → List ℕ → Bool
includes k [] = false
includes k (x ∷ xs) = nat_eq x k || includes k xs

-- What has to hold around a call: there is a number left, and every snapshot is visited.
abbrev pub IsPossible : SnapshotStore → Call → Type 0
IsPossible ss (save_call access contents clock now) = ss.next_id + 1 < 2 ^ 64
IsPossible ss (latest_call order) =
    (k : ℕ) (snap : Snapshot) → find ss.snapshots k ≡ some snap → includes k order ≡ true
IsPossible ss _ = Unit
