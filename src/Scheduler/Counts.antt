-- ===== src/Scheduler/Counts.antt =====
-- runtime/scheduler.go: how often a goal is queued.
use ugem.Prelude.{
  ℕ, ◌+◌, ◌≡◌, refl, ◌∙◌, String, Bool, List, [], ◌∷◌, ◌++◌, ◌==◌, if◌then◌else◌, arith,
}
use ugem.Prelude.Sort.{sort, insert}
use ugem.Goal.{Goal}
use ugem.Scheduler.{ScheduledItem, Scheduler, item_less, enqueue}

-- the items of a goal
unfoldable pub in_queue : String → List ScheduledItem → ℕ
in_queue id [] = 0
in_queue id (item ∷ items) = (if item.goal_id == id then 1 else 0) + in_queue id items

in_queue-insert :
    (less : ScheduledItem → ScheduledItem → Bool) (id : String) (item : ScheduledItem)
    (items : List ScheduledItem)
    → in_queue id (insert less item items)
      ≡ (if item.goal_id == id then 1 else 0) + in_queue id items
unfolding insert in_queue
in_queue-insert less id item [] = refl
in_queue-insert less id item (i ∷ items) = ground (arith, in_queue-insert less id item items)

in_queue-sort :
    (less : ScheduledItem → ScheduledItem → Bool) (id : String) (items : List ScheduledItem)
    → in_queue id (sort less items) ≡ in_queue id items
unfolding sort in_queue
in_queue-sort less id [] = refl
in_queue-sort less id (i ∷ items) =
    omega (arith, in_queue-insert less id i (sort less items), in_queue-sort less id items)

in_queue-append :
    (id : String) (items : List ScheduledItem) (item : ScheduledItem)
    → in_queue id (items ++ item ∷ []) ≡ in_queue id items + (if item.goal_id == id then 1 else 0)
unfolding in_queue
in_queue-append id [] item = omega arith
in_queue-append id (i ∷ items) item = omega (arith, in_queue-append id items item)

pub in_queue-enqueue :
    (s : Scheduler) (goal : Goal) (now : ℕ) (id : String)
    → in_queue id (enqueue s goal now).priority_queue
      ≡ in_queue id s.priority_queue + (if goal.id == id then 1 else 0)
unfolding enqueue
in_queue-enqueue s goal now id =
    in_queue-sort item_less id _ ∙ in_queue-append id s.priority_queue _
