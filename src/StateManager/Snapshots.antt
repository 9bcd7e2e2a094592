-- ===== src/StateManager/Snapshots.antt =====
-- Snapshots and differences.
use ugem.Prelude.{
  ◌≡◌, ◌↔◌, refl, String, Option, none, some, [], ◌∷◌, ◌==◌, eq_iff, if◌then◌else◌, get, get-put,
  get-nil, get-merge, merge-IsDistinct, IsDistinct, merge, arith,
}
use ugem.Types.{State, TypedValue, typed_eq, typed_eq_iff}
use ugem.StateManager.{
  StateManager, Snapshot, take_snapshot, apply_snapshot, diff, changed, gone, note_changed,
  note_gone,
}

-- Where no path stands twice in the data, applying a snapshot to any manager gives it the clock and, at every path, the value of the
-- manager that the snapshot was taken of.
apply-take_snapshot :
    (s t : StateManager) (path : String)
    → IsDistinct s.data_map
    → (get (apply_snapshot t (take_snapshot s).1).data_map path ≡ get s.data_map path)
      × ((apply_snapshot t (take_snapshot s).1).clock ≡ s.clock)
unfolding apply_snapshot take_snapshot
apply-take_snapshot s t path h = ground (
  arith,
  get-merge [] (merge [] s.data_map) path (merge-IsDistinct [] s.data_map tt),
  get-merge [] s.data_map path h,
  get-nil {V = TypedValue} path,
)

get-note_changed :
    (before : State) (k : String) (v : TypedValue) (diff : State) (path : String)
    → get (note_changed before k v diff) path ≡ (
        if k == path
        then elim (get before path) [
          | none ↦ some v
          | some b ↦ if typed_eq b v then get diff path else some v
        ]
        else get diff path)
unfolding note_changed
get-note_changed before k v diff path = ground (arith, get-put diff k path v, eq_iff k path)

get-changed :
    (before d diff : State) (path : String)
    → IsDistinct d
    → get (changed before d diff) path ≡ elim (get d path) [
      | none ↦ get diff path
      | some v ↦ elim (get before path) [
        | none ↦ some v
        | some b ↦ if typed_eq b v then get diff path else some v
      ]
    ]
unfolding changed get
get-changed before [] diff path h = refl
get-changed before ((k, v) ∷ d) diff path h = ground (
  arith,
  get-changed before d (note_changed before k v diff) path h.1,
  get-note_changed before k v diff path,
  eq_iff k path,
)

get-note_gone :
    (now : State) (k : String) (v : TypedValue) (diff : State) (path : String)
    → get (note_gone now k v diff) path ≡ (
        if k == path
        then elim (get now path) [ none ↦ some v | some _ ↦ get diff path ]
        else get diff path)
unfolding note_gone
get-note_gone now k v diff path = ground (arith, get-put diff k path v, eq_iff k path)

get-gone :
    (now before diff : State) (path : String)
    → IsDistinct before
    → get (gone now before diff) path ≡ elim (get before path) [
      | none ↦ get diff path
      | some b ↦ elim (get now path) [ none ↦ some b | some _ ↦ get diff path ]
    ]
unfolding gone get
get-gone now [] diff path h = refl
get-gone now ((k, v) ∷ before) diff path h = ground (
  arith,
  get-gone now before (note_gone now k v diff) path h.1,
  get-note_gone now k v diff path,
  eq_iff k path,
)

-- The entry of a path in a difference, from its values before and now: none if they are one value,
-- else the present value, or the former one of a path that is gone.
abbrev pub difference : Option TypedValue → Option TypedValue → Option TypedValue
difference none now = now
difference (some b) none = some b
difference (some b) (some v) = if typed_eq b v then none else some v

get-diff :
    (s : StateManager) (before : Snapshot) (path : String)
    → IsDistinct s.data_map
    → IsDistinct before.state
    → get (diff s before) path ≡ difference (get before.state path) (get s.data_map path)
unfolding diff
get-diff s before path h k = ground (
  arith,
  get-changed before.state s.data_map [] path h,
  get-gone s.data_map before.state (changed before.state s.data_map []) path k,
  get-nil {V = TypedValue} path,
)

difference_iff : (b v : Option TypedValue) → (difference b v ≡ none) ↔ (b ≡ v)
difference_iff none none = ground arith
difference_iff none (some v) = ground arith
difference_iff (some b) none = ground arith
difference_iff (some b) (some v) = ground (arith, typed_eq_iff b v)

-- `Diff` has an entry for exactly the paths whose value changed since the snapshot, was made or is
-- gone; the entry is the present value, or the former one of a path that is gone. No path stands
-- twice in the data or in the snapshot.
pub diff_exact :
    (s : StateManager) (before : Snapshot) (path : String)
    → IsDistinct s.data_map
    → IsDistinct before.state
    → ((get (diff s before) path ≡ none) ↔ (get before.state path ≡ get s.data_map path))
      × (get (diff s before) path ≡ difference (get before.state path) (get s.data_map path))
diff_exact s before path h k = (
  rw (get-diff s before path h k) (difference_iff (get before.state path) (get s.data_map path)),
  get-diff s before path h k,
)
