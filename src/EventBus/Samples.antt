-- ===== src/EventBus/Samples.antt =====
-- Runs of the event bus, and its theorems at them.
use ugem.Prelude.{◌≡◌, refl, none, [], ◌∷◌, some, length, count, get, ◌<◌}
use ugem.Types.{Event}
use ugem.SampleData.{event_of}
use ugem.EventBus.{Subscriber, EventBus, new_event_bus, start, subscribe, publish}
use ugem.EventBus.Delivery.{publish-delivers}

abbrev payment : Event
payment = event_of [] none []

abbrev listened : EventBus
listened = subscribe (start new_event_bus) "ledger" ("payment" ∷ [])

publish-delivers_example :
    (get listened.subscribers "ledger" ≡ none
      → count "ledger" (publish listened ("ledger" ∷ []) payment).1 ≡ 0)
    × ((sub : Subscriber)
        → get listened.subscribers "ledger" ≡ some sub
        → (sub.event_types ≡ [] → count "ledger" (publish listened ("ledger" ∷ []) payment).1 ≡ 1)
          × (0 < count payment.type sub.event_types
              → count "ledger" (publish listened ("ledger" ∷ []) payment).1 ≡ 1)
          × (0 < length sub.event_types
              → count payment.type sub.event_types ≡ 0
              → count "ledger" (publish listened ("ledger" ∷ []) payment).1 ≡ 0))
unfolding subscribe start get count
publish-delivers_example = publish-delivers listened "ledger" ("ledger" ∷ []) payment refl refl
