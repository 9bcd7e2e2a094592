-- ===== src/SnapshotStore/Recovery.antt =====
-- storage/store.go: a store that is opened on a directory holds what the directory holds.
use ugem.Prelude.{
  ℕ, ◌^◌, ◌≤◌, ◌<◌, ◌≡◌, refl, sym, ap, ◌∙◌, Option, none, some, [], ◌∷◌, arith, or_else,
}
use ugem.Prelude.Numbered.{Numbered, find, find-store, IsNumbered, Each}
use ugem.SnapshotStore.{SnapshotStore, Snapshot, recover_snapshot, recover_snapshots, open_store}
use ugem.SnapshotStore.Archive.{IsKept}

abbrev pub IsFiled : ℕ → ℕ → Snapshot → Type 0
IsFiled bound k snap = (snap.id ≡ k) × (k < bound)

pub Each-mono :
    (m n : ℕ) (files : Numbered Snapshot) → m ≤ n → Each (IsFiled m) files → Each (IsFiled n) files
Each-mono m n [] le h = tt
Each-mono m n ((k, snap) ∷ files) le h = ((h.0.0, omega (arith, h.0.1)), Each-mono m n files le h.1)

recover-view :
    (ss : SnapshotStore) (bound : ℕ) (files : Numbered Snapshot) (k : ℕ)
    → IsNumbered files
    → Each (IsFiled bound) files
    → find (recover_snapshots ss files).snapshots k ≡ or_else (find files k) (find ss.snapshots k)
unfolding recover_snapshots recover_snapshot find
recover-view ss bound [] k n h = refl
recover-view ss bound ((i, snap) ∷ files) k n h = ground (
  arith,
  recover-view (recover_snapshot ss snap) bound files k n.1 h.1,
  find-store ss.snapshots snap.id k snap,
  h.0.0,
  n.0,
)

pub recover-files :
    (ss : SnapshotStore) (files : Numbered Snapshot) → (recover_snapshots ss files).files ≡ ss.files
unfolding recover_snapshots recover_snapshot
recover-files ss [] = refl
recover-files ss ((i, snap) ∷ files) = recover-files (recover_snapshot ss snap) files

recover-next :
    (ss : SnapshotStore) (bound : ℕ) (files : Numbered Snapshot)
    → bound < 2 ^ 64
    → ss.next_id ≤ bound
    → Each (IsFiled bound) files
    → (ss.next_id ≤ (recover_snapshots ss files).next_id)
      × ((recover_snapshots ss files).next_id ≤ bound)
      × Each (IsFiled (recover_snapshots ss files).next_id) files
unfolding recover_snapshots recover_snapshot
recover-next ss bound [] b le h = (omega arith, le, tt)
recover-next ss bound ((i, snap) ∷ files) b le h =
    let rest =
      recover-next (recover_snapshot ss snap) bound files b (ground (arith, h.0.0, h.0.1)) h.1 in
    (ground (arith, rest.0), rest.1, ((h.0.0, ground (arith, rest.0, h.0.0, h.0.1)), rest.2))

or_none : (o : Option Snapshot) → or_else o none ≡ o
or_none none = refl
or_none (some snap) = refl

pub open_store-IsKept :
    (bound : ℕ) (files : Numbered Snapshot)
    → bound < 2 ^ 64
    → IsNumbered files
    → Each (IsFiled bound) files
    → IsKept (open_store files)
unfolding open_store find
open_store-IsKept bound files b n h =
    let start : SnapshotStore = record { snapshots = []; next_id = 0; files = files } in
    let (low, high, each) = recover-next start bound files b (omega arith) h in
    record {
      mirrored = λ k.
          recover-view start bound files k n h
          ∙ or_none (find files k)
          ∙ sym (ap (λ (fs : Numbered Snapshot). find fs k) (recover-files start files));
      numbered = rw (recover-files start files) n;
      each = rw (recover-files start files) each;
      bounded = omega (arith, high);
    }
