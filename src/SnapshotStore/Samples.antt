-- ===== src/SnapshotStore/Samples.antt =====
-- A store on a directory, and its theorem at it.
use ugem.Prelude.{ℕ, ◌≡◌, refl, true, [], ◌∷◌, arith}
use ugem.Prelude.Numbered.{Numbered, find, remove}
use ugem.Types.{ok}
use ugem.SnapshotStore.{SnapshotStore, Snapshot, Access, open_store, save, delete_snapshot}
use ugem.SnapshotStore.Archive.{save_call, delete_call, run_call, Promises, view}
use ugem.SnapshotStore.Refinement.{Reach, opened, next, run_call-Promises}

abbrev snapshot_at : ℕ → Snapshot
snapshot_at id = record { id = id; clock = id; timestamp = 7; contents = [] }

abbrev two_files : Numbered Snapshot
two_files = (0, snapshot_at 0) ∷ (4, snapshot_at 4) ∷ []

abbrev working : Access
working = record { creates = true; encodes = true; removes = true }

two_files-Reach : Reach (open_store two_files)
unfolding find
two_files-Reach =
    opened 5 two_files (omega arith) (refl, (refl, tt))
      ((refl, omega arith), ((refl, omega arith), tt))

abbrev after_delete : SnapshotStore
after_delete = (run_call (open_store two_files) (delete_call working 4)).0

-- After a delete the next snapshot has number 5.
run_call-Promises_example :
    let (ss', answer) = run_call after_delete (save_call working [] 9 8) in
    Promises (view after_delete) (save_call working [] 9 8) answer (view ss')
run_call-Promises_example =
    run_call-Promises after_delete (save_call working [] 9 8)
      (next two_files-Reach (delete_call working 4) tt) (unfold run_call open_store in omega arith)

-- The newest snapshot is deleted, and the store is opened anew: its number is given away again.
abbrev opened_again : SnapshotStore
opened_again = open_store (delete_snapshot working (open_store two_files) 4).0.files

number_is_reused :
    ((save working (open_store two_files) [] 9 8).1 ≡ ok 5)
    × ((save working opened_again [] 9 8).1 ≡ ok 1)
unfolding save open_store delete_snapshot remove
number_is_reused = (refl, refl)
