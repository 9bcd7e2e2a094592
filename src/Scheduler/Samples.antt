-- ===== src/Scheduler/Samples.antt =====
-- Runs of the scheduler, and its theorems at them.
use mathlib.Core.List.{Perm}
use ugem.Prelude.{◌≤◌, ◌<◌, ◌≡◌, none, [], ◌∷◌, ◌++◌, if◌then◌else◌, get, All}
use ugem.SampleData.{waiting}
use ugem.Goal.{Goal, pending}
use ugem.Scheduler.{ScheduledItem, Scheduler, normal, new_scheduler, time_of, dequeue_ready}
use ugem.Scheduler.Batch.{TimerTrigger}
use ugem.Scheduler.Queue.{item_of, named_in, dequeue_ready_splits}

abbrev refill : Goal
refill = waiting "refill" "stock" pending

abbrev audit : Goal
audit = waiting "audit" "ledger" pending

abbrev one_item : Scheduler
one_item = record (new_scheduler normal) {
  items = ("refill", item_of (new_scheduler normal) refill 10) ∷ [];
  priority_queue = item_of (new_scheduler normal) refill 10 ∷ [];
}

dequeue_ready_splits_example :
    let (s', ready) = dequeue_ready one_item 12 in
    All (λ (i : ScheduledItem). i.execute_at ≤ time_of one_item 12) ready
    × All (λ (i : ScheduledItem). time_of one_item 12 < i.execute_at) s'.priority_queue
    × Perm (ready ++ s'.priority_queue) one_item.priority_queue
    × (get s'.items "refill"
        ≡ (if named_in "refill" ready then none else get one_item.items "refill"))
dequeue_ready_splits_example = dequeue_ready_splits one_item 12 "refill"

abbrev one_timer : TimerTrigger
one_timer = record { id = "tick"; goal_id = "audit"; execute_at = 30; period = 0 }
