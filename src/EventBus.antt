-- ===== src/EventBus.antt =====
-- runtime/event_bus.go: subscribers and the recent events. A handler runs in a goroutine of its own,
-- so a delivery is the name of the subscriber; `Publish` says to whom it delivers, in the order in
-- which Go happens to visit the map, which is an argument. The channel `eventQueue` is never written.
pub mod Delivery
mod Samples
use ugem.Prelude.{
  ℕ, ◌+◌, ◌/◌, ◌≡◌, String, Bool, true, false, ◌||◌, Option, none, some, List, [], ◌∷◌, ◌++◌, GoMap,
  ◌==◌, if◌then◌else◌, u64, nat_eq, ltb, leb, length, drop, get, put, delete, contains,
}
use ugem.Types.{Error, subscriber_not_found, invalid_event, Event, Result, ok, err}

pub record Subscriber : Type 0 where
  pub id : String
  pub event_types : List String

pub record EventBus : Type 0 where
  pub subscribers : GoMap Subscriber
  pub events : List Event
  pub clock : ℕ  -- uint64
  pub running : Bool

abbrev pub new_event_bus : EventBus
new_event_bus = record { subscribers = []; events = []; clock = 0; running = false }

abbrev pub max_event_history : ℕ
max_event_history = 10000

-- A name that is taken keeps its subscription.
unfoldable pub subscribe : EventBus → String → List String → EventBus
subscribe eb id event_types = elim (get eb.subscribers id) [
  | some _ ↦ eb
  | none ↦ record eb {
    subscribers = put eb.subscribers id (record { id = id; event_types = event_types });
  }
]

unfoldable pub unsubscribe : EventBus → String → EventBus × Option Error
unsubscribe eb id = elim (get eb.subscribers id) [
  | none ↦ (eb, some subscriber_not_found)
  | some _ ↦ (record eb { subscribers = delete eb.subscribers id }, none)
]

unfoldable pub should_deliver : Subscriber → Event → Bool
should_deliver sub event = elim sub.event_types [
  | [] ↦ true
  | _ ↦ contains event.type sub.event_types
]

-- the subscribers that get the event, of those that are visited
unfoldable pub deliver_event : GoMap Subscriber → List String → Event → List String
deliver_event subscribers [] event = []
deliver_event subscribers (id ∷ ids) event =
    let rest = deliver_event subscribers ids event in
    elim (get subscribers id) [
      | none ↦ rest
      | some sub ↦ if should_deliver sub event then id ∷ rest else rest
    ]

-- The oldest fifth goes when there are too many.
unfoldable pub evict : List Event → List Event
evict events =
    if ltb max_event_history (length events) then drop (max_event_history / 5) events else events

unfoldable pub publish : EventBus → List String → Event → EventBus × List String
publish eb order event =
    if eb.running
    then (
      record eb { events = evict (eb.events ++ event ∷ []) },
      deliver_event eb.subscribers order event,
    )
    else (eb, [])

unfoldable pub get_event : List Event → ℕ → Result Event
get_event [] id = err invalid_event
get_event (event ∷ events) id = if nat_eq event.id id then ok event else get_event events id

unfoldable pub replay_from : ℕ → List Event → List Event
replay_from from [] = []
replay_from from (event ∷ events) =
    let rest = replay_from from events in if leb from event.id then event ∷ rest else rest

unfoldable pub start : EventBus → EventBus
start eb = record eb { running = true }

unfoldable pub stop : EventBus → EventBus
stop eb = record eb { running = false }

unfoldable pub advance_clock : EventBus → EventBus × ℕ
advance_clock eb = let now = u64 (eb.clock + 1) in (record eb { clock = now }, now)

unfoldable pub get_subscriber_count : EventBus → ℕ
get_subscriber_count eb = length eb.subscribers
