-- ===== src/Wal.antt =====
-- storage/store.go: the write-ahead log. The file is the list of the entries that decode, in order.
-- Whether an entry can be encoded, written and synced is decided outside: it is an argument.
pub mod Truncation
mod Samples
use ugem.Prelude.{
  ℕ, ◌+◌, ◌-◌, Bool, true, false, Option, none, some, List, [], ◌∷◌, ◌++◌, if◌then◌else◌, u64,
  length, drop, last?, leb,
}
use ugem.Types.{Event, Error, other, Result, ok, err}

pub record Wal : Type 0 where
  pub entries : List Event
  pub event_count : ℕ  -- uint64
  pub clock : ℕ  -- uint64

-- What the operating system answers to one append.
pub record Disk : Type 0 where
  pub marshals : Bool
  pub writes : Bool
  pub syncs : Bool

abbrev pub working : Disk
working = record { marshals = true; writes = true; syncs = true }

-- What the file keeps of an event: neither its mutator nor the number of a corrected event.
unfoldable pub stored : Event → Event
stored event = record event { state_mutator = none; correction_of = 0 }

-- `NewWriteAheadLog` on a file with these entries, and `recoverPosition`
unfoldable pub open_wal : List Event → Wal
open_wal entries = elim (last? entries) [
  | none ↦ record { entries = entries; event_count = 0; clock = 0 }
  | some last ↦ record { entries = entries; event_count = last.id; clock = last.clock }
]

-- The number is taken before anything can fail, and is not given back.
unfoldable pub append_wal : Wal → Event → ℕ → Disk → Wal × Result ℕ
unfolding stored
append_wal w event now disk =
    let w1 = record w { event_count = u64 (w.event_count + 1) } in
    let entry = record (stored event) {
      id = w1.event_count;
      clock = u64 (w.clock + 1);
      timestamp = now;
    } in
    let w2 = record w1 { entries = w.entries ++ entry ∷ [] } in
    if disk.marshals
    then if disk.writes
      then if disk.syncs
        then (record w2 { clock = entry.clock }, ok entry.id)
        else (w2, err (other "failed to sync WAL"))
      else (w1, err (other "failed to write WAL entry"))
    else (w1, err (other "failed to marshal WAL entry"))

-- `Truncate`, where the file can be rewritten: the last entries stay, and the count starts anew from
-- how many they are.
unfoldable pub truncate : Wal → ℕ → Wal
truncate w keep_count =
    if leb (length w.entries) keep_count
    then w
    else (let kept = drop (length w.entries - keep_count) w.entries in
        record w { entries = kept; event_count = length kept })
