-- ===== src/Scheduler/Queue.antt =====
-- The queue and the map of the scheduler.
use mathlib.Core.List.{Perm, Mem, perm_middle}
use mathlib.Core.List.Perm
use ugem.Prelude.{
  ℕ, ◌≤◌, ◌<◌, ◌≡◌, refl, String, Bool, true, false, none, some, List, [], ◌∷◌, ◌++◌, GoMap, ◌==◌,
  if◌then◌else◌, ltb, get, delete, get-put, get-delete, All, arith, Bool-cases, inl, inr,
}
use ugem.Prelude.Sort.{IsSorted, sort-perm, sort-IsSorted, sort_unique}
use ugem.Goal.{Goal}
use ugem.Scheduler.{
  ScheduledItem, Scheduler, item_less, enqueue, due, not_due, forget, time_of, dequeue_ready,
}
use ugem.Scheduler.Comparison.{item_less_asym, item_less_trans, item_less_tri}

-- Names tell the items of a queue apart.
abbrev pub HasNames : List ScheduledItem → Type 0
HasNames queue = (a b : ScheduledItem) → Mem a queue → Mem b queue → a.id ≡ b.id → a ≡ b

-- What `Enqueue` puts in the queue for a goal.
abbrev pub item_of : Scheduler → Goal → ℕ → ScheduledItem
item_of s goal now = record {
  id = goal.id;
  goal_id = goal.id;
  priority = goal.priority;
  clock = s.clock;
  execute_at = time_of s now;
  deadline = 0;
  type = "goal";
}

-- The queue that `Enqueue` leaves is sorted by `compareItems` and holds the old items and the new
-- one, and the map has the new one under its name and is otherwise as it was.
enqueue_queue :
    (s : Scheduler) (goal : Goal) (now : ℕ) (id : String)
    → IsSorted item_less (enqueue s goal now).priority_queue
      × Perm (enqueue s goal now).priority_queue (s.priority_queue ++ item_of s goal now ∷ [])
      × (get (enqueue s goal now).items id
          ≡ (if goal.id == id then some (item_of s goal now) else get s.items id))
unfolding enqueue
enqueue_queue s goal now id = (
  sort-IsSorted item_less item_less_asym item_less_trans _,
  sort-perm item_less _,
  get-put s.items goal.id id (item_of s goal now),
)

-- Where names tell the items apart, the queue that `Enqueue` leaves is the only sorted list of the
-- old items and the new one: it does not depend on the sorting algorithm.
enqueue_unique :
    (s : Scheduler) (goal : Goal) (now : ℕ) (other : List ScheduledItem)
    → HasNames (s.priority_queue ++ item_of s goal now ∷ [])
    → IsSorted item_less other
    → Perm other (s.priority_queue ++ item_of s goal now ∷ [])
    → other ≡ (enqueue s goal now).priority_queue
unfolding enqueue
enqueue_unique s goal now other names sorted same =
    sort_unique item_less item_less_asym item_less_trans _ other
      (λ a b ma mb p q. names a b ma mb (item_less_tri a b p q)) sorted same

due-not_due-perm :
    (t : ℕ) (queue : List ScheduledItem) → Perm (due t queue ++ not_due t queue) queue
unfolding due not_due
due-not_due-perm t [] = Perm.rfl
due-not_due-perm t (item ∷ queue) = elim (Bool-cases (ltb t item.execute_at)) [
  | inl later ↦ rw later (
      Perm.trans (perm_middle (due t queue) (not_due t queue))
        (Perm.cons item (due-not_due-perm t queue)))
  | inr now ↦ rw now (Perm.cons item (due-not_due-perm t queue))
]

All-due :
    (t : ℕ) (queue : List ScheduledItem)
    → All (λ (i : ScheduledItem). i.execute_at ≤ t) (due t queue)
unfolding due
All-due t [] = tt
All-due t (item ∷ queue) = ground (arith, All-due t queue)

All-not_due :
    (t : ℕ) (queue : List ScheduledItem)
    → All (λ (i : ScheduledItem). t < i.execute_at) (not_due t queue)
unfolding not_due
All-not_due t [] = tt
All-not_due t (item ∷ queue) = ground (arith, All-not_due t queue)

abbrev pub named_in : String → List ScheduledItem → Bool
named_in id [] = false
named_in id (item ∷ items) = if item.id == id then true else named_in id items

get-forget :
    (items : GoMap ScheduledItem) (ready : List ScheduledItem) (id : String)
    → get (forget items ready) id ≡ (if named_in id ready then none else get items id)
unfolding forget
get-forget items [] id = refl
get-forget items (item ∷ ready) id =
    ground (arith, get-forget (delete items item.id) ready id, get-delete items item.id id)

-- `DequeueReady` splits the queue: what it returns is due, what stays is not, nothing is lost or
-- doubled, and the map loses exactly the names of what was returned.
pub dequeue_ready_splits :
    (s : Scheduler) (now : ℕ) (id : String)
    → let (s', ready) = dequeue_ready s now in
      All (λ (i : ScheduledItem). i.execute_at ≤ time_of s now) ready
      × All (λ (i : ScheduledItem). time_of s now < i.execute_at) s'.priority_queue
      × Perm (ready ++ s'.priority_queue) s.priority_queue
      × (get s'.items id ≡ (if named_in id ready then none else get s.items id))
unfolding dequeue_ready
dequeue_ready_splits s now id = (
  All-due (time_of s now) s.priority_queue,
  All-not_due (time_of s now) s.priority_queue,
  due-not_due-perm (time_of s now) s.priority_queue,
  get-forget s.items (due (time_of s now) s.priority_queue) id,
)
