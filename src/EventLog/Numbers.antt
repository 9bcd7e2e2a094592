-- ===== src/EventLog/Numbers.antt =====
-- The numbers of events: what `Append`, `Get` and `Range` promise of a log kept in memory.
use ugem.Prelude.{
  ℕ, zero, suc, ◌+◌, ◌-◌, ◌^◌, ◌≤◌, ◌<◌, ◌≡◌, refl, sym, ap, ◌&&◌, none, List, [], ◌∷◌, ◌++◌,
  if◌then◌else◌, u64, nat_eq, ltb, leb, length, length-append, take, drop, ◌⊎◌, inl, inr, ◌∙◌,
  Bool-cases, get_elem?-append_one, get_elem?_beyond, arith,
}
use ugem.Types.{Event, invalid_range, panic, Result, ok, err}
use ugem.Wal.{Disk}
use ugem.EventLog.{EventLog, append, stamp, get_event, range}

-- Events numbered, and clocked, from a number on.
abbrev pub NumberedFrom : ℕ → List Event → Type 0
NumberedFrom k [] = Unit
NumberedFrom k (event ∷ events) = (event.id ≡ k) × (event.clock ≡ k) × NumberedFrom (k + 1) events

pub record IsDense (log : EventLog) : Type 0 where
  pub numbered : NumberedFrom 1 log.events
  pub next : log.next_id ≡ length log.events + 1
  pub now : log.clock ≡ length log.events
  pub room : length log.events + 1 < 2 ^ 64

NumberedFrom-append :
    (k : ℕ) (events : List Event) (event : Event)
    → NumberedFrom k events
    → event.id ≡ k + length events
    → event.clock ≡ k + length events
    → NumberedFrom k (events ++ event ∷ [])
NumberedFrom-append k [] event h e c = (omega arith, omega arith, tt)
NumberedFrom-append k (x ∷ events) event h e c =
    (h.0, h.1, NumberedFrom-append (k + 1) events event h.2 (omega arith) (omega arith))

-- Without persistence, `Append` keeps the log numbered 1, 2, … without gaps, as long as the next
-- number fits a `uint64`.
append-IsDense :
    (log : EventLog) (event : Event) (now : ℕ) (disk : Disk)
    → IsDense log
    → log.wal ≡ none
    → length log.events + 2 < 2 ^ 64
    → IsDense (append log event now disk).0
unfolding append
append-IsDense log event now disk h memory room = rw memory (record {
  numbered =
      NumberedFrom-append 1 log.events (stamp log event now) h.numbered (omega (arith, h.next))
        (omega (arith, h.now, h.room));
  next = omega (arith, h.next, length-append log.events (stamp log event now ∷ []));
  now = omega (arith, h.now, length-append log.events (stamp log event now ∷ []));
  room = omega (arith, length-append log.events (stamp log event now ∷ []));
})

-- On a dense log without persistence, as long as the next number fits a `uint64`: `Append` returns
-- the next number. `Get` of that number is then the event as stamped, and `Get` of
-- every other number is what it was, the errors included.
pub get_event-append :
    (log : EventLog) (event : Event) (now id : ℕ) (disk : Disk)
    → IsDense log
    → log.wal ≡ none
    → length log.events + 2 < 2 ^ 64
    → ((append log event now disk).1 ≡ ok log.next_id)
      × (get_event (append log event now disk).0 id
          ≡ (if nat_eq id log.next_id then ok (stamp log event now) else get_event log id))
unfolding append get_event
get_event-append log event now id disk h memory room = ground (
  arith,
  h.next,
  get_elem?-append_one log.events (stamp log event now) (id - 1),
  get_elem?_beyond log.events (id - 1),
)

-- the events with a number between two
select : ℕ → ℕ → List Event → List Event
select lo hi [] = []
select lo hi (event ∷ events) =
    let rest = select lo hi events in
    if leb lo event.id && leb event.id hi then event ∷ rest else rest

select-take :
    (lo hi k n : ℕ) (events : List Event)
    → lo ≤ k
    → n ≡ hi + 1 - k
    → NumberedFrom k events
    → select lo hi events ≡ take n events
unfolding select
select-take lo hi k zero [] h e ids = refl
select-take lo hi k (suc n) [] h e ids = refl
select-take lo hi k zero (event ∷ events) h e ids =
    ground (arith, select-take lo hi (k + 1) zero events, ids.0, ids.2)
select-take lo hi k (suc n) (event ∷ events) h e ids =
    ground (arith, select-take lo hi (k + 1) n events, ids.0, ids.2)

select-drop :
    (lo hi k i : ℕ) (events : List Event)
    → lo ≡ k + i
    → NumberedFrom k events
    → select lo hi events ≡ take (hi + 1 - lo) (drop i events)
select-drop lo hi k zero events e ids =
    select-take lo hi k (hi + 1 - lo) events (omega arith) (omega arith) ids
select-drop lo hi k (suc i) [] e ids = take_nil (hi + 1 - lo)
  where
    take_nil : (n : ℕ) → select lo hi [] ≡ take n []
    take_nil zero = unfold select in refl
    take_nil (suc n) = unfold select in refl
select-drop lo hi k (suc i) (event ∷ events) e ids =
    skip ∙ select-drop lo hi (k + 1) i events (omega arith) ids.2
  where
    skip : select lo hi (event ∷ events) ≡ select lo hi events
    skip = unfold select in ground (arith, ids.0)

select_none :
    (lo hi k : ℕ) (events : List Event)
    → NumberedFrom k events
    → (hi < k) ⊎ (k + length events ≤ lo) ⊎ (hi < lo)
    → select lo hi events ≡ []
unfolding select
select_none lo hi k [] ids h = refl
select_none lo hi k (event ∷ events) ids h =
    ground (arith, select_none lo hi (k + 1) events, ids.0, ids.2)

-- Bounds below and above all numbers serve alike.
select_same :
    (lo lo' hi hi' k : ℕ) (events : List Event)
    → NumberedFrom k events
    → (lo ≡ lo') ⊎ ((lo ≤ k) × (lo' ≤ k))
    → (hi ≡ hi') ⊎ ((k + length events ≤ hi + 1) × (k + length events ≤ hi' + 1))
    → select lo hi events ≡ select lo' hi' events
unfolding select
select_same lo lo' hi hi' k [] ids p q = refl
select_same lo lo' hi hi' k (event ∷ events) ids p q =
    ground (arith, select_same lo lo' hi hi' (k + 1) events, ids.0, ids.2)

-- the slice that `Range` takes, from the first number to the last
slice : (first last : ℕ) → List Event → Result (List Event)
slice first last events =
    if ltb last first
    then ok []
    else if ltb (length events) last
    then err panic
    else ok (take (last - first + 1) (drop (first - 1) events))

slice-eq-select :
    (first last : ℕ) (events : List Event)
    → NumberedFrom 1 events
    → 1 ≤ first
    → last ≤ length events
    → slice first last events ≡ ok (select first last events)
unfolding slice
slice-eq-select first last events ids p q = ground (
  arith,
  select_none first last 1 events ids,
  select-drop first last 1 (first - 1) events (omega arith) ids,
)

-- `Range` of a dense log never panics: it fails exactly for a start past the end, and otherwise
-- returns the events with a number between the two, in order.
range-eq-select :
    (log : EventLog) (start end : ℕ)
    → IsDense log
    → range log start end
      ≡ (if ltb end start then err invalid_range else ok (select start end log.events))
unfolding range slice
range-eq-select log start end h =
    let first = if nat_eq start 0 then 1 else start in
    let last = if leb log.next_id end then u64 (log.next_id + (2 ^ 64 - 1)) else end in
    let cut =
      slice-eq-select first last log.events h.numbered (ground arith)
        (ground (arith, h.next, h.room)) in
    let same =
      select_same start first end last 1 log.events h.numbered (ground arith)
        (ground (arith, h.next, h.room)) in
    elim (Bool-cases (ltb end start)) [ inl e ↦ rw e | inr e ↦ rw e (cut ∙ ap ok (sym same)) ]
