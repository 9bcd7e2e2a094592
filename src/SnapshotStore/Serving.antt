-- ===== src/SnapshotStore/Serving.antt =====
-- storage/store.go: the store serves each call as an archive does.
use ugem.Prelude.{
  ℕ, ◌+◌, ◌^◌, ◌<◌, ◌≡◌, refl, sym, ap, ◌∙◌, true, none, some, List, [], ◌∷◌, arith, Bool-cases,
  Option-cases, inl, inr, u64, leb→le, ◌-◌, list_cases, subst,
}
use ugem.Prelude.Numbered.{
  Numbered, find, store, remove, find-store, find-remove, store-IsNumbered, remove-IsNumbered,
  store-Each, remove-Each, find-Each,
}
use ugem.Types.{State, snapshot_not_found, ok, err}
use ugem.SnapshotStore.{
  SnapshotStore, Snapshot, Access, open_store, save, load, latest_of, latest, delete_snapshot,
  next_snapshot,
}
use ugem.SnapshotStore.Archive.{
  Call, save_call, load_call, latest_call, delete_call, restart, AnswerTo, run_call, Promises, view,
  IsKept, IsPossible,
}
use ugem.SnapshotStore.Recovery.{recover-files, IsFiled, Each-mono, open_store-IsKept}
use ugem.SnapshotStore.Latest.{IsNamed, IsKnown, tops, latest_of-IsKnown, latest_of-tops_each}

module _ (ss : SnapshotStore) (kept : IsKept ss) where
  filed : (k : ℕ) (snap : Snapshot) → find ss.snapshots k ≡ some snap → IsFiled ss.next_id k snap
  filed k snap e =
      find-Each (IsFiled ss.next_id) ss.files k snap kept.each (sym (kept.mirrored k) ∙ e)

  -- The next number is free.
  free : find ss.snapshots ss.next_id ≡ none
  free = elim (Option-cases (find ss.snapshots ss.next_id)) [
    | inl e ↦ e
    | inr (snap, e) ↦ absurd (omega (arith, (filed ss.next_id snap e).1))
  ]

  saved-IsKept :
      (snap : Snapshot)
      → snap.id ≡ ss.next_id
      → ss.next_id + 1 < 2 ^ 64
      → IsKept (record ss {
        snapshots = store ss.snapshots ss.next_id snap;
        next_id = u64 (ss.next_id + 1);
        files = store ss.files ss.next_id snap;
      })
  saved-IsKept snap same room = record {
    mirrored = λ k. ground (
      arith,
      find-store ss.snapshots ss.next_id k snap,
      find-store ss.files ss.next_id k snap,
      kept.mirrored k,
    );
    numbered = store-IsNumbered ss.files ss.next_id snap kept.numbered;
    each =
        store-Each (IsFiled (u64 (ss.next_id + 1))) ss.files ss.next_id snap
          (Each-mono ss.next_id (u64 (ss.next_id + 1)) ss.files (omega arith) kept.each)
          (same, omega arith);
    bounded = omega arith;
  }

  -- A file that could not be written is gone, as it was before.
  unsaved-IsKept : IsKept (record ss { files = remove ss.files ss.next_id })
  unsaved-IsKept = record {
    mirrored = λ k.
        ground (
          arith,
          find-remove ss.files ss.next_id k,
          kept.mirrored k,
          free,
          kept.mirrored ss.next_id,
        );
    numbered = remove-IsNumbered ss.files ss.next_id kept.numbered;
    each = remove-Each (IsFiled ss.next_id) ss.files ss.next_id kept.each;
    bounded = kept.bounded;
  }

  deleted-IsKept :
      (id : ℕ)
      → IsKept (record ss { snapshots = remove ss.snapshots id; files = remove ss.files id })
  deleted-IsKept id = record {
    mirrored = λ k.
        ground (arith, find-remove ss.snapshots id k, find-remove ss.files id k, kept.mirrored k);
    numbered = remove-IsNumbered ss.files id kept.numbered;
    each = remove-Each (IsFiled ss.next_id) ss.files id kept.each;
    bounded = kept.bounded;
  }

-- What a call does: its promise, and the invariant after it.
abbrev Serves : SnapshotStore → (c : Call) → SnapshotStore × AnswerTo c → Type 0
Serves ss c (ss', answer) = Promises (view ss) c answer (view ss') × IsKept ss'

number_back : (n : ℕ) → n + 1 < 2 ^ 64 → u64 (u64 (n + 1) + (2 ^ 64 - 1)) ≡ n
number_back n room = omega arith

save-Serves :
    (ss : SnapshotStore) (access : Access) (contents : State) (clock now : ℕ)
    → IsKept ss
    → ss.next_id + 1 < 2 ^ 64
    → Serves ss (save_call access contents clock now) (save access ss contents clock now)
unfolding save
save-Serves ss access contents clock now kept room = elim (Bool-cases access.creates) [
  | inr e ↦ rw e ((λ k. refl), kept)
  | inl e ↦ elim (Bool-cases access.encodes) [
    | inr e2 ↦ rw (e, e2) ((λ k. refl), unsaved-IsKept ss kept)
    | inl e2 ↦
        rw (e, e2, number_back ss.next_id room)
          (
            (
              free ss kept,
              λ k. find-store ss.snapshots ss.next_id k (next_snapshot ss contents clock now),
            ),
            saved-IsKept ss kept (next_snapshot ss contents clock now) refl room,
          )
  ]
]

load-Serves : (ss : SnapshotStore) (id : ℕ) → IsKept ss → Serves ss (load_call id) (ss, load ss id)
unfolding load
load-Serves ss id kept = elim (Option-cases (find ss.snapshots id)) [
  | inl e ↦ rw e ((e, λ k. refl), kept)
  | inr (snap, e) ↦ rw e ((e, λ k. refl), kept)
]

module _ (ss : SnapshotStore) (order : List ℕ) where
  empty_latest : ss.snapshots ≡ [] → latest ss order ≡ err snapshot_not_found
  unfolding latest
  empty_latest e = rw e refl

  nonempty_latest :
      (x : ℕ × Snapshot) (rest : Numbered Snapshot) (snap : Snapshot)
      → ss.snapshots ≡ x ∷ rest
      → latest_of ss order none ≡ some snap
      → latest ss order ≡ ok snap
  unfolding latest
  nonempty_latest x rest snap e l = rw (l, e) (ground arith)

  first_found :
      (k : ℕ) (snap : Snapshot) (rest : Numbered Snapshot)
      → ss.snapshots ≡ (k, snap) ∷ rest
      → find ss.snapshots k ≡ some snap
  unfolding find
  first_found k snap rest e = rw e (ground arith)

  latest-Serves :
      IsKept ss
      → IsPossible ss (latest_call order)
      → Serves ss (latest_call order) (ss, latest ss order)
  latest-Serves kept visits =
      let named : IsNamed ss = λ k snap e. (filed ss kept k snap e).0 in
      let topped = latest_of-tops_each ss named order none in
      elim (list_cases ss.snapshots) [
        | inl e ↦ rw (empty_latest e) (
          ((λ k. ap (λ (m : Numbered Snapshot). find m k) e ∙ unfold find in refl), λ k. refl),
          kept,
        )
        | inr ((k, first), rest, e) ↦
            let there = first_found k first rest e in
            elim (Option-cases (latest_of ss order none)) [
              | inl l ↦ absurd (cc (l, topped k first there (visits k first there)))
              | inr (snap, l) ↦ rw (nonempty_latest (k, first) rest snap e l) (
                (
                  subst (IsKnown ss) l (latest_of-IsKnown ss named order none tt),
                  (λ j other o.
                      leb→le j snap.id
                        (subst (λ x. tops x j ≡ true) l (topped j other o (visits j other o)))),
                  λ k. refl,
                ),
                kept,
              )
            ]
      ]

delete_snapshot-Serves :
    (ss : SnapshotStore) (access : Access) (id : ℕ)
    → IsKept ss
    → Serves ss (delete_call access id) (delete_snapshot access ss id)
unfolding delete_snapshot
delete_snapshot-Serves ss access id kept = elim (Option-cases (find ss.files id)) [
  | inl e ↦ rw e ((λ k. refl), kept)
  | inr (snap, e) ↦ elim (Bool-cases access.removes) [
    | inr r ↦ rw (e, r) ((λ k. refl), kept)
    | inl r ↦
        rw (e, r)
          (
            ((snap, kept.mirrored id ∙ e), λ k. find-remove ss.snapshots id k),
            deleted-IsKept ss kept id,
          )
  ]
]

reopened-files : (ss : SnapshotStore) → (open_store ss.files).files ≡ ss.files
unfolding open_store
reopened-files ss =
    recover-files (record { snapshots = []; next_id = 0; files = ss.files }) ss.files

restart-Serves : (ss : SnapshotStore) → IsKept ss → Serves ss restart (open_store ss.files, tt)
restart-Serves ss kept =
    let again = open_store-IsKept ss.next_id ss.files kept.bounded kept.numbered kept.each in
    (
      (λ k.
          again.mirrored k
          ∙ ap (λ (fs : Numbered Snapshot). find fs k) (reopened-files ss)
          ∙ sym (kept.mirrored k)),
      again,
    )

-- In a store that is kept well each call does what an archive promises, and the store is kept well
-- again.
pub run_call-Serves :
    (ss : SnapshotStore) (c : Call)
    → IsKept ss
    → IsPossible ss c
    → let (ss', answer) = run_call ss c in Promises (view ss) c answer (view ss') × IsKept ss'
unfolding run_call
run_call-Serves ss (save_call access contents clock now) kept room =
    save-Serves ss access contents clock now kept room
run_call-Serves ss (load_call id) kept h = load-Serves ss id kept
run_call-Serves ss (latest_call order) kept visits = latest-Serves ss order kept visits
run_call-Serves ss (delete_call access id) kept h = delete_snapshot-Serves ss access id kept
run_call-Serves ss restart kept h = restart-Serves ss kept
