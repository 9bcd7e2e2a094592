-- ===== src/SnapshotStore/Refinement.antt =====
-- storage/store.go: after any calls the store refines an archive.
use ugem.Prelude.{ℕ, ◌^◌, ◌<◌}
use ugem.Prelude.Numbered.{Numbered, IsNumbered, Each}
use ugem.SnapshotStore.{SnapshotStore, Snapshot, open_store}
use ugem.SnapshotStore.Archive.{Call, run_call, Promises, view, IsKept, IsPossible}
use ugem.SnapshotStore.Recovery.{IsFiled, open_store-IsKept}
use ugem.SnapshotStore.Serving.{run_call-Serves}

-- The stores that are opened on a directory, each file of it under the number of its snapshot, and
-- what calls make of them.
pub data Reach : SnapshotStore → Type 0 where
  opened :
      (bound : ℕ) (files : Numbered Snapshot)
      → bound < 2 ^ 64
      → IsNumbered files
      → Each (IsFiled bound) files
      → Reach (open_store files)
  next : {ss : SnapshotStore} → Reach ss → (c : Call) → IsPossible ss c → Reach (run_call ss c).0

Reach-IsKept : {ss : SnapshotStore} → Reach ss → IsKept ss
Reach-IsKept (opened bound files b n h) = open_store-IsKept bound files b n h
Reach-IsKept (next {ss} r c possible) = (run_call-Serves ss c (Reach-IsKept r) possible).1

-- After any calls on a store that was opened on a directory, each call does what an archive promises:
-- whatever order the snapshots are visited in, whatever the operating system refuses, and also when
-- the store is opened anew on its directory. A call to save needs a number below the last one, and
-- the visit has to reach every snapshot.
pub run_call-Promises :
    (ss : SnapshotStore) (c : Call)
    → Reach ss
    → IsPossible ss c
    → let (ss', answer) = run_call ss c in Promises (view ss) c answer (view ss')
run_call-Promises ss c r possible = (run_call-Serves ss c (Reach-IsKept r) possible).0
