-- ===== src/SnapshotStore/Latest.antt =====
-- storage/store.go: the loop over the snapshots finds one with the greatest number.
use ugem.Prelude.{
  ℕ, ◌≡◌, ap, ◌∙◌, Bool, true, false, Option, none, some, List, [], ◌∷◌, nat_eq, arith, Bool-cases,
  Option-cases, inl, inr, ltb, leb, subst, nat_eq_iff,
}
use ugem.Prelude.Numbered.{find}
use ugem.SnapshotStore.{SnapshotStore, Snapshot, later_of, latest_of}
use ugem.SnapshotStore.Archive.{includes}

-- Each snapshot stands under its own number.
abbrev pub IsNamed : SnapshotStore → Type 0
IsNamed ss = (k : ℕ) (snap : Snapshot) → find ss.snapshots k ≡ some snap → snap.id ≡ k

abbrev pub IsKnown : SnapshotStore → Option Snapshot → Type 0
IsKnown ss none = Unit
IsKnown ss (some snap) = find ss.snapshots snap.id ≡ some snap

abbrev pub tops : Option Snapshot → ℕ → Bool
tops none k = false
tops (some snap) k = leb k snap.id

later_of-tops :
    (o : Option Snapshot) (snap : Snapshot) (k : ℕ)
    → tops o k ≡ true
    → tops (later_of o snap) k ≡ true
unfolding later_of
later_of-tops none snap k h = absurd (cc h)
later_of-tops (some best) snap k h = ground arith

later_of-tops_self : (o : Option Snapshot) (snap : Snapshot) → tops (later_of o snap) snap.id ≡ true
unfolding later_of
later_of-tops_self none snap = ground arith
later_of-tops_self (some best) snap = ground arith

later_of-IsKnown :
    (ss : SnapshotStore) (o : Option Snapshot) (snap : Snapshot)
    → IsKnown ss o
    → find ss.snapshots snap.id ≡ some snap
    → IsKnown ss (later_of o snap)
unfolding later_of
later_of-IsKnown ss none snap h e = e
later_of-IsKnown ss (some best) snap h e = elim (Bool-cases (ltb best.id snap.id)) [
  | inl l ↦ rw l e
  | inr l ↦ rw l h
]

latest_of-tops :
    (ss : SnapshotStore) (order : List ℕ) (o : Option Snapshot) (k : ℕ)
    → tops o k ≡ true
    → tops (latest_of ss order o) k ≡ true
unfolding latest_of
latest_of-tops ss [] o k h = h
latest_of-tops ss (id ∷ order) o k h = elim (Option-cases (find ss.snapshots id)) [
  | inl e ↦ rw e (latest_of-tops ss order o k h)
  | inr (snap, e) ↦ rw e (latest_of-tops ss order (later_of o snap) k (later_of-tops o snap k h))
]

module _ (ss : SnapshotStore) (named : IsNamed ss) where
  pub latest_of-IsKnown :
      (order : List ℕ) (o : Option Snapshot) → IsKnown ss o → IsKnown ss (latest_of ss order o)
  unfolding latest_of
  latest_of-IsKnown [] o h = h
  latest_of-IsKnown (id ∷ order) o h = elim (Option-cases (find ss.snapshots id)) [
    | inl e ↦ rw e (latest_of-IsKnown order o h)
    | inr (snap, e) ↦ rw e (
        latest_of-IsKnown order (later_of o snap)
          (later_of-IsKnown ss o snap h (ap (λ n. find ss.snapshots n) (named id snap e) ∙ e)))
  ]

  pub latest_of-tops_each :
      (order : List ℕ) (o : Option Snapshot) (k : ℕ) (snap : Snapshot)
      → find ss.snapshots k ≡ some snap
      → includes k order ≡ true
      → tops (latest_of ss order o) k ≡ true
  unfolding latest_of
  latest_of-tops_each [] o k snap e h = absurd (cc h)
  latest_of-tops_each (id ∷ order) o k snap e h = elim (Bool-cases (nat_eq id k)) [
    | inl same ↦
        rw ((nat_eq_iff id k).0 same, e)
          (latest_of-tops ss order (later_of o snap) k (
            subst (λ n. tops (later_of o snap) n ≡ true) (named k snap e)
              (later_of-tops_self o snap)))
    | inr n ↦ elim (Option-cases (find ss.snapshots id)) [
      | inl gone ↦ rw gone (latest_of-tops_each order o k snap e (rw n at h))
      | inr (other, there) ↦
          rw there (latest_of-tops_each order (later_of o other) k snap e (rw n at h))
    ]
  ]
