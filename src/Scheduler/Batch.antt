-- ===== src/Scheduler/Batch.antt =====
-- runtime/scheduler.go: `Schedule`, which plans goals, events and timers in one call, and `ListItems`.
-- The wall clock is read once for a call.
use mathlib.Core.List.{Perm}
use ugem.Prelude.{
  ℕ, ◌+◌, ◌-◌, ◌≡◌, refl, String, Option, none, some, List, [], ◌∷◌, ◌++◌, map, GoMap, ◌==◌,
  if◌then◌else◌, u64, nat_eq, ltb, length, length-append, get, put, get-put, or_else, arith,
}
use ugem.Prelude.Int.{pos, negsuc}
use ugem.Prelude.Decimal.{decimal}
use ugem.Prelude.Sort.{sort, IsSorted, sort-perm, sort-IsSorted}
use ugem.Types.{Event}
use ugem.Goal.{Goal}
use ugem.Scheduler.{strict, ScheduledItem, Scheduler, item_less, unix}
use ugem.Scheduler.Comparison.{item_less_asym, item_less_trans}
use Prim.Native.String as Str

pub record TimerTrigger : Type 0 where
  pub id : String
  pub goal_id : String
  pub execute_at : ℕ
  pub period : ℕ

-- The latest start that keeps the deadline, but not before now.
abbrev pub latest_start : Goal → ℕ → ℕ
latest_start goal now =
    if nat_eq goal.deadline 0
    then now
    else if ltb (goal.deadline - goal.timeout) now
    then now
    else goal.deadline - goal.timeout

abbrev pub goal_item : Scheduler → ℕ → Goal → ScheduledItem
goal_item s now goal = record {
  id = goal.id;
  goal_id = goal.id;
  priority = goal.priority;
  clock = s.clock;
  execute_at = elim s.mode [ strict ↦ unix s.clock | _ ↦ latest_start goal now ];
  deadline = goal.deadline;
  type = "goal";
}

abbrev pub event_item : Scheduler → ℕ → Event → ScheduledItem
event_item s now event = record {
  id = Str.◌++◌ "event_" (decimal event.id);
  goal_id = "";
  priority = negsuc 0;
  clock = event.clock;
  execute_at = elim s.mode [ strict ↦ unix event.clock | _ ↦ now ];
  deadline = 0;
  type = "event";
}

abbrev pub timer_item : Scheduler → TimerTrigger → ScheduledItem
timer_item s timer = record {
  id = timer.id;
  goal_id = timer.goal_id;
  priority = pos 100;
  clock = s.clock;
  execute_at = timer.execute_at;
  deadline = 0;
  type = "timer";
}

unfoldable pub put_all : GoMap ScheduledItem → List ScheduledItem → GoMap ScheduledItem
put_all items [] = items
put_all items (item ∷ rest) = put_all (put items item.id item) rest

abbrev pub planned : Scheduler → List Goal → List Event → List TimerTrigger → ℕ → List ScheduledItem
planned s goals events timers now =
    map (goal_item s now) goals ++ map (event_item s now) events ++ map (timer_item s) timers

unfoldable pub schedule :
    Scheduler → List Goal → List Event → List TimerTrigger → ℕ → Scheduler × List ScheduledItem
schedule s goals events timers now =
    let items = planned s goals events timers now in
    (
      record s {
        items = put_all s.items items;
        priority_queue = sort item_less (s.priority_queue ++ items);
        clock = u64 (s.clock + 1);
      },
      items,
    )

-- the last item of a name
abbrev pub last_named : List ScheduledItem → String → Option ScheduledItem
last_named [] id = none
last_named (item ∷ items) id =
    or_else (last_named items id) (if item.id == id then some item else none)

get-put_all :
    (items : GoMap ScheduledItem) (new : List ScheduledItem) (id : String)
    → get (put_all items new) id ≡ or_else (last_named new id) (get items id)
unfolding put_all
get-put_all items [] id = refl
get-put_all items (item ∷ new) id =
    ground (arith, get-put_all (put items item.id item) new id, get-put items item.id id item)

length-map {ℓ} : {A : Type ℓ} {B : Type 0} (f : A → B) (xs : List A) → length (map f xs) ≡ length xs
length-map f [] = refl
length-map f (x ∷ xs) = omega (arith, length-map f xs)

length-append_three :
    (xs ys zs : List ScheduledItem) (n m k : ℕ)
    → length xs ≡ n
    → length ys ≡ m
    → length zs ≡ k
    → length (xs ++ ys ++ zs) ≡ n + m + k
length-append_three xs ys zs n m k e f g = grind (
  arith,
  length-append xs (ys ++ zs),
  length-append (xs ++ ys) zs,
  length-append ys zs,
  length-append xs ys,
)

length-planned :
    (s : Scheduler) (goals : List Goal) (events : List Event) (timers : List TimerTrigger) (now : ℕ)
    → length (planned s goals events timers now) ≡ length goals + length events + length timers
length-planned s goals events timers now =
    length-append_three (map (goal_item s now) goals) (map (event_item s now) events)
      (map (timer_item s) timers) _ _ _ (length-map (goal_item s now) goals)
      (length-map (event_item s now) events) (length-map (timer_item s) timers)

-- `Schedule` returns one item for each goal, event and timer. Afterwards the queue is sorted and
-- holds the items that it had and the returned ones, and a name has in the map the last returned
-- item of the name, or what it had.
schedule_lem :
    (s : Scheduler) (goals : List Goal) (events : List Event) (timers : List TimerTrigger) (now : ℕ)
    (id : String)
    → let (s', items) = schedule s goals events timers now in
      (length items ≡ length goals + length events + length timers)
      × IsSorted item_less s'.priority_queue
      × Perm s'.priority_queue (s.priority_queue ++ items)
      × (get s'.items id ≡ or_else (last_named items id) (get s.items id))
unfolding schedule
schedule_lem s goals events timers now id = (
  length-planned s goals events timers now,
  sort-IsSorted item_less item_less_asym item_less_trans _,
  sort-perm item_less _,
  get-put_all s.items _ id,
)

-- The items of the map in the order of `compareItems`.
unfoldable pub list_items : Scheduler → List ScheduledItem
list_items s = sort item_less (map (λ (p : String × ScheduledItem). p.1) s.items)
