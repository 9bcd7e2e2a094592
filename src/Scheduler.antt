-- ===== src/Scheduler.antt =====
-- runtime/scheduler.go: the items that wait for their time, in a queue and in a map by name. An
-- instant of the wall clock is an argument; in strict mode the logical clock gives the time, in
-- seconds. `sort.Slice` is `sort` of the prelude.
mod Comparison
pub mod Queue
pub mod Counts
pub mod Batch
mod Samples
use ugem.Prelude.{
  ℕ, ◌+◌, ◌-◌, ◌*◌, ◌≡◌, String, Bool, true, false, not, ◌&&◌, ◌||◌, Option, none, some, List, [],
  ◌∷◌, ◌++◌, GoMap, ◌==◌, if◌then◌else◌, u64, nat_eq, ltb, leb, get, put, delete,
}
use ugem.Prelude.Int.{ℤ, pos, negsuc, ltb_ℤ, eqb_ℤ}
use ugem.Prelude.Sort.{sort}
use ugem.Prelude.StringOrder.{str_ltb}
use ugem.Types.{Event}
use ugem.Goal.{Goal}

pub data SchedulerMode : Type 0 where
  normal strict replay_validation : SchedulerMode

pub record ScheduledItem : Type 0 where
  pub id : String
  pub goal_id : String
  pub priority : ℤ
  pub clock : ℕ  -- uint64
  pub execute_at : ℕ
  pub deadline : ℕ  -- 0 is no deadline
  pub type : String

pub record Scheduler : Type 0 where
  pub items : GoMap ScheduledItem
  pub priority_queue : List ScheduledItem
  pub clock : ℕ  -- uint64
  pub mode : SchedulerMode

abbrev pub new_scheduler : SchedulerMode → Scheduler
new_scheduler mode = record { items = []; priority_queue = []; clock = 0; mode = mode }

pub data Sign : Type 0 where
  less same more : Sign

-- the first comparison that tells two items apart
abbrev pub then_by : Sign → Sign → Sign
then_by same s = s
then_by s _ = s

abbrev by_number : ℕ → ℕ → Sign
by_number a b = if ltb a b then less else if ltb b a then more else same

-- An item with a deadline comes before one without.
by_deadline : ℕ → ℕ → Sign
by_deadline a b =
    if not (nat_eq a 0) && not (nat_eq b 0)
    then by_number a b
    else if not (nat_eq a 0)
    then less
    else if not (nat_eq b 0)
    then more
    else same

by_priority : ℤ → ℤ → Sign
by_priority a b = if eqb_ℤ a b then same else if ltb_ℤ b a then less else more

by_id : String → String → Sign
by_id a b = if str_ltb a b then less else if str_ltb b a then more else same

unfoldable pub compare_items : ScheduledItem → ScheduledItem → Sign
unfolding by_deadline by_priority by_id
compare_items a b = then_by (by_deadline a.deadline b.deadline) (
    then_by (by_number a.execute_at b.execute_at) (
      then_by (by_priority a.priority b.priority)
        (then_by (by_number a.clock b.clock) (by_id a.id b.id))))

abbrev pub is_less : Sign → Bool
is_less less = true
is_less _ = false

unfoldable pub item_less : ScheduledItem → ScheduledItem → Bool
item_less a b = is_less (compare_items a b)

-- `time.Unix(int64(clock), 0)`, in nanoseconds since the zero time
abbrev pub unix : ℕ → ℕ
unix clock = (62135596800 + clock) * 1000000000

abbrev pub time_of : Scheduler → ℕ → ℕ
time_of s now = elim s.mode [ strict ↦ unix s.clock | _ ↦ now ]

unfoldable pub enqueue : Scheduler → Goal → ℕ → Scheduler
enqueue s goal now =
    let item : ScheduledItem = record {
      id = goal.id;
      goal_id = goal.id;
      priority = goal.priority;
      clock = s.clock;
      execute_at = time_of s now;
      deadline = 0;
      type = "goal";
    } in
    record s {
      items = put s.items goal.id item;
      priority_queue = sort item_less (s.priority_queue ++ item ∷ []);
    }

-- The first item of the name is taken out of the queue.
unfoldable pub drop_item : String → List ScheduledItem → List ScheduledItem
drop_item id [] = []
drop_item id (item ∷ items) = if item.id == id then items else item ∷ drop_item id items

unfoldable pub dequeue : Scheduler → String → Scheduler × Option ScheduledItem
dequeue s id = elim (get s.items id) [
  | none ↦ (s, none)
  | some item ↦ (
    record s { priority_queue = drop_item id s.priority_queue; items = delete s.items id },
    some item,
  )
]

-- the first item that is not before now
unfoldable pub first_from : ℕ → List ScheduledItem → Option ScheduledItem
first_from now [] = none
first_from now (item ∷ items) = if leb now item.execute_at then some item else first_from now items

unfoldable pub next_item : Scheduler → ℕ → Option ScheduledItem
next_item s now = first_from now s.priority_queue

unfoldable pub peek : Scheduler → Option ScheduledItem
peek s = elim s.priority_queue [ [] ↦ none | item ∷ _ ↦ some item ]

-- the items that are due, and the others, in the order of the queue
unfoldable pub due : ℕ → List ScheduledItem → List ScheduledItem
due now [] = []
due now (item ∷ items) =
    let rest = due now items in if ltb now item.execute_at then rest else item ∷ rest

unfoldable pub not_due : ℕ → List ScheduledItem → List ScheduledItem
not_due now [] = []
not_due now (item ∷ items) =
    let rest = not_due now items in if ltb now item.execute_at then item ∷ rest else rest

unfoldable pub drop_items : List ScheduledItem → List ScheduledItem → List ScheduledItem
drop_items [] queue = queue
drop_items (item ∷ items) queue = drop_items items (drop_item item.id queue)

-- The ticker drops the items that are due from the queue, and leaves the map as it is.
unfoldable pub process_scheduled_items : Scheduler → ℕ → Scheduler
process_scheduled_items s now = record s {
  priority_queue = drop_items (due (time_of s now) s.priority_queue) s.priority_queue;
}

unfoldable pub forget : GoMap ScheduledItem → List ScheduledItem → GoMap ScheduledItem
forget items [] = items
forget items (item ∷ ready) = forget (delete items item.id) ready

unfoldable pub dequeue_ready : Scheduler → ℕ → Scheduler × List ScheduledItem
dequeue_ready s now =
    let t = time_of s now in
    let ready = due t s.priority_queue in
    (record s { items = forget s.items ready; priority_queue = not_due t s.priority_queue }, ready)
