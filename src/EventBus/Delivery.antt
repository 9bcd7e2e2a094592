-- ===== src/EventBus/Delivery.antt =====
-- What `Publish` keeps, to whom it delivers, and what the readers of the history find.
use ugem.Prelude.{
  ℕ, zero, suc, ◌+◌, ◌≤◌, ◌<◌, ◌≡◌, refl, String, Bool, true, false, none, some, List, [], ◌∷◌,
  ◌++◌, ◌==◌, if◌then◌else◌, ltb, length, length-append, length-drop, drop, get, count, arith,
  eq_iff, Bool-cases, inl, inr, list_cases, ap, contains,
}
use ugem.Types.{Event}
use ugem.EventBus.{Subscriber, EventBus, should_deliver, deliver_event, evict, publish}

drop-append {ℓ} :
    {A : Type ℓ} (n : ℕ) (xs ys : List A) → n ≤ length xs → drop n (xs ++ ys) ≡ drop n xs ++ ys
drop-append zero xs ys h = refl
drop-append (suc n) [] ys h = absurd (omega arith)
drop-append (suc n) (x ∷ xs) ys h = drop-append n xs ys (omega arith)

module _ {A : Type 0} (limit cut : ℕ) (xs : List A) (x : A) where
  abbrev kept : List A
  kept = if ltb (length xs) limit then xs else drop cut xs

  drop_if_over :
      cut ≤ limit
      → length xs ≤ limit
      → (if ltb limit (length (xs ++ x ∷ [])) then drop cut (xs ++ x ∷ []) else xs ++ x ∷ [])
        ≡ kept ++ x ∷ []
  drop_if_over p h = ground (arith, length-append xs (x ∷ []), drop-append cut xs (x ∷ []))

  length-kept : 0 < cut → length xs ≤ limit → 0 < limit → length (kept ++ x ∷ []) ≤ limit
  length-kept p h q = ground (arith, length-append kept (x ∷ []), length-drop cut xs)

evict_lem :
    (events : List Event) (event : Event)
    → length events ≤ 10000
    → evict (events ++ event ∷ []) ≡ kept 10000 2000 events event ++ event ∷ []
unfolding evict
evict_lem events event h = drop_if_over 10000 2000 events event (omega arith) h

publish-running :
    (eb : EventBus) (order : List String) (event : Event)
    → eb.running ≡ true
    → publish eb order event ≡ (
      record eb { events = evict (eb.events ++ event ∷ []) },
      deliver_event eb.subscribers order event,
    )
unfolding publish
publish-running eb order event up = ground (arith, up)

-- The history is bounded: a bus that runs with at most 10000 events has at most 10000 after
-- `Publish`, and they are the events before, less the oldest 2000 if there were 10000, and the
-- published event as the last.
publish_history :
    (eb : EventBus) (order : List String) (event : Event)
    → eb.running ≡ true
    → length eb.events ≤ 10000
    → let kept = if ltb (length eb.events) 10000 then eb.events else drop 2000 eb.events in
      ((publish eb order event).0.events ≡ kept ++ event ∷ [])
      × (length (publish eb order event).0.events ≤ 10000)
publish_history eb order event up h =
    let e = evict_lem eb.events event h in
    let bound = length-kept 10000 2000 eb.events event (omega arith) h (omega arith) in
    rw (publish-running eb order event up) (e, (rw e bound))

-- whether a subscriber of this name gets the event
abbrev wants : EventBus → String → Event → Bool
wants eb id event = elim (get eb.subscribers id) [
  | none ↦ false
  | some sub ↦ should_deliver sub event
]

deliver_event-cons :
    (eb : EventBus) (id name : String) (order : List String) (event : Event)
    → count id (deliver_event eb.subscribers (name ∷ order) event)
      ≡ (if wants eb name event then (if name == id then 1 else 0) else 0)
        + count id (deliver_event eb.subscribers order event)
unfolding deliver_event count
deliver_event-cons eb id name order event = ground arith

deliver_event-nil :
    (eb : EventBus) (id : String) (event : Event)
    → count id (deliver_event eb.subscribers [] event) ≡ 0
unfolding deliver_event count
deliver_event-nil eb id event = refl

count-deliver_event :
    (eb : EventBus) (id : String) (order : List String) (event : Event)
    → count id (deliver_event eb.subscribers order event)
      ≡ (if wants eb id event then count id order else 0)
unfolding count
count-deliver_event eb id [] event = ground (arith, deliver_event-nil eb id event)
count-deliver_event eb id (name ∷ order) event = elim (Bool-cases (name == id)) [
  | inl same ↦
      let e = (eq_iff name id).0 same in
      rw (deliver_event-cons eb id name order event, count-deliver_event eb id order event, e)
        (ground arith)
  | inr other ↦
      rw (deliver_event-cons eb id name order event, count-deliver_event eb id order event)
        (ground (arith, other))
]

contains-eq-count : (s : String) (xs : List String) → contains s xs ≡ ltb 0 (count s xs)
unfolding contains count
contains-eq-count s [] = refl
contains-eq-count s (x ∷ xs) = ground (arith, contains-eq-count s xs)

delivers_all :
    (sub : Subscriber) (event : Event) → sub.event_types ≡ [] → should_deliver sub event ≡ true
unfolding should_deliver
delivers_all sub event e = rw e refl

-- a subscriber with types
delivers_type :
    (sub : Subscriber) (event : Event)
    → 0 < length sub.event_types
    → should_deliver sub event ≡ ltb 0 (count event.type sub.event_types)
unfolding should_deliver
delivers_type sub event some_type = elim (list_cases sub.event_types) [
  | inl e ↦ absurd (ground (arith, ap length e))
  | inr (t, ts, e) ↦ rw e (contains-eq-count event.type (t ∷ ts))
]

length-of-count : (s : String) (xs : List String) → 0 < count s xs → 0 < length xs
unfolding count
length-of-count s [] h = absurd (omega (arith, h))
length-of-count s (x ∷ xs) h = omega arith

-- Delivery is exact: if the visit of the map meets a name once, a running bus delivers the event to
-- it once if it is subscribed to no types, which means all of them, or if the event's type occurs
-- among its types; not at all if it has types and the event's is none of them; and not at all if
-- nothing is subscribed under the name.
pub publish-delivers :
    (eb : EventBus) (id : String) (order : List String) (event : Event)
    → eb.running ≡ true
    → count id order ≡ 1
    → (get eb.subscribers id ≡ none → count id (publish eb order event).1 ≡ 0)
      × ((sub : Subscriber)
          → get eb.subscribers id ≡ some sub
          → (sub.event_types ≡ [] → count id (publish eb order event).1 ≡ 1)
            × (0 < count event.type sub.event_types → count id (publish eb order event).1 ≡ 1)
            × (0 < length sub.event_types
                → count event.type sub.event_types ≡ 0
                → count id (publish eb order event).1 ≡ 0))
unfolding publish
publish-delivers eb id order event up once =
    let exact = count-deliver_event eb id order event in
    (
      λ none_there. ground (arith, exact, none_there),
      λ sub there. (
        λ e. ground (arith, exact, there, delivers_all sub event e),
        λ e. ground (
          arith,
          exact,
          there,
          delivers_type sub event (length-of-count event.type sub.event_types e),
        ),
        λ m e. ground (arith, exact, there, delivers_type sub event m),
      ),
    )
