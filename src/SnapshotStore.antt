-- ===== src/SnapshotStore.antt =====
-- storage/store.go: the store of snapshots. Each snapshot is held in memory and in a file of its
-- number, `snapshot_<id>.bin`. A directory is the snapshots of its files that decode, by number.
-- Whether a file can be created, written and removed is decided outside.
pub mod Archive
pub mod Recovery
pub mod Latest
pub mod Serving
pub mod Refinement
mod Samples
use ugem.Prelude.{
  ℕ, ◌+◌, ◌-◌, ◌^◌, Bool, Option, none, some, List, [], ◌∷◌, if◌then◌else◌, ltb, leb, nat_eq,
  length, u64, map,
}
use ugem.Prelude.Numbered.{Numbered, find, store, remove}
use ugem.Types.{State, Error, snapshot_not_found, other, Result, ok, err}

pub record Snapshot : Type 0 where
  pub id : ℕ  -- uint64
  pub clock : ℕ  -- uint64
  pub timestamp : ℕ
  pub contents : State

pub record SnapshotStore : Type 0 where
  pub snapshots : Numbered Snapshot
  pub next_id : ℕ  -- uint64
  -- the directory at `path`
  pub files : Numbered Snapshot

-- one file of the directory
unfoldable pub recover_snapshot : SnapshotStore → Snapshot → SnapshotStore
recover_snapshot ss snap = record ss {
  snapshots = store ss.snapshots snap.id snap;
  next_id = if leb ss.next_id snap.id then u64 (snap.id + 1) else ss.next_id;
}

unfoldable pub recover_snapshots : SnapshotStore → Numbered Snapshot → SnapshotStore
unfolding recover_snapshot
recover_snapshots ss [] = ss
recover_snapshots ss ((n, snap) ∷ files) = recover_snapshots (recover_snapshot ss snap) files

-- `NewSnapshotStore` on a directory
unfoldable pub open_store : Numbered Snapshot → SnapshotStore
unfolding recover_snapshots
open_store files = recover_snapshots (record { snapshots = []; next_id = 0; files = files }) files

-- What the operating system answers.
pub record Access : Type 0 where
  pub creates : Bool
  pub encodes : Bool
  pub removes : Bool

abbrev pub next_snapshot : SnapshotStore → State → ℕ → ℕ → Snapshot
next_snapshot ss contents clock now = record {
  id = ss.next_id;
  clock = clock;
  timestamp = now;
  contents = contents;
}

-- A file that cannot be written is removed again.
unfoldable pub save : Access → SnapshotStore → State → ℕ → ℕ → SnapshotStore × Result ℕ
save access ss contents clock now =
    let snapshot = next_snapshot ss contents clock now in
    let next = u64 (ss.next_id + 1) in
    if access.creates
    then if access.encodes
      then (
        record ss {
          snapshots = store ss.snapshots ss.next_id snapshot;
          next_id = next;
          files = store ss.files ss.next_id snapshot;
        },
        ok (u64 (next + (2 ^ 64 - 1))),
      )
      else (
        record ss { files = remove ss.files ss.next_id },
        err (other "cannot encode the snapshot"),
      )
    else (ss, err (other "cannot create the file"))

abbrev or_not_found : Option Snapshot → Result Snapshot
or_not_found none = err snapshot_not_found
or_not_found (some snap) = ok snap

unfoldable pub load : SnapshotStore → ℕ → Result Snapshot
unfolding find
load ss id = or_not_found (find ss.snapshots id)

-- `if latest == nil || snap.ID > latest.ID { latest = snap }`
unfoldable pub later_of : Option Snapshot → Snapshot → Option Snapshot
later_of none snap = some snap
later_of (some latest) snap = if ltb latest.id snap.id then some snap else some latest

abbrev visit : Option Snapshot → Option Snapshot → Option Snapshot
visit latest none = latest
visit latest (some snap) = later_of latest snap

-- The snapshots are visited in the order in which Go goes through the keys of the map.
unfoldable pub latest_of : SnapshotStore → List ℕ → Option Snapshot → Option Snapshot
unfolding later_of find
latest_of ss [] latest = latest
latest_of ss (id ∷ order) latest = latest_of ss order (visit latest (find ss.snapshots id))

unfoldable pub latest : SnapshotStore → List ℕ → Result Snapshot
unfolding latest_of
latest ss order =
    if nat_eq (length ss.snapshots) 0
    then err snapshot_not_found
    else or_not_found (latest_of ss order none)

-- A file that is not there cannot be removed.
abbrev remove_file : Bool → Option Snapshot → Bool
remove_file removes none = Bool.false
remove_file removes (some snap) = removes

unfoldable pub delete_snapshot : Access → SnapshotStore → ℕ → SnapshotStore × Option Error
unfolding find
delete_snapshot access ss id =
    if remove_file access.removes (find ss.files id)
    then (record ss { snapshots = remove ss.snapshots id; files = remove ss.files id }, none)
    else (ss, some (other "cannot remove the file"))

-- `List`, in the order of the visit
unfoldable pub list_snapshots : SnapshotStore → List ℕ → List Snapshot
unfolding find
list_snapshots ss [] = []
list_snapshots ss (id ∷ order) =
    let rest = list_snapshots ss order in
    elim (find ss.snapshots id) [ none ↦ rest | some snap ↦ snap ∷ rest ]
