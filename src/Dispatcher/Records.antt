-- ===== src/Dispatcher/Records.antt =====
-- runtime/action_dispatcher.go and runtime/memory.go: the records of the attempts that the memory keeps.
use mathlib.Core.List.{append_assoc, append-nil}
use ugem.Prelude.{
  ℕ, zero, suc, ◌+◌, ◌-◌, ◌≡◌, refl, sym, ap, ◌∙◌, String, none, some, List, [], ◌∷◌, ◌++◌, GoMap,
  if◌then◌else◌, ltb, length, length-append, drop, arith, Bool-cases, inl, inr,
}
use ugem.Types.{Error, Value, ok, err}
use ugem.Memory.{ExecutionRecord, add_record, record_failure}
use ugem.Dispatcher.{Attempts, ActionDispatcher, note_success, note_failure}

-- how many of the records in the memory and the new ones go: as many as are too many, but each new
-- one drives out one at most
abbrev dropped : ℕ → ℕ → ℕ → ℕ
dropped max old new = if ltb new ((old + new) - max) then new else (old + new) - max

-- the newest of the records before and the new ones
abbrev pub newest : ℕ → List ExecutionRecord → List ExecutionRecord → List ExecutionRecord
newest max before new = drop (dropped max (length before) (length new)) (before ++ new)

abbrev step : ℕ → List ExecutionRecord → ExecutionRecord → List ExecutionRecord
step max records r =
    if ltb max (length (records ++ r ∷ [])) then drop 1 (records ++ r ∷ []) else records ++ r ∷ []

drop-one :
    (n : ℕ) (records : List ExecutionRecord) (r : ExecutionRecord) (new : List ExecutionRecord)
    → drop n (drop 1 (records ++ r ∷ []) ++ new) ≡ drop (suc n) (records ++ r ∷ new)
drop-one n [] r new = refl
drop-one n (x ∷ records) r new = ap (drop n) (append_assoc records (r ∷ []) new)

length-drop-one :
    (records : List ExecutionRecord) (r : ExecutionRecord)
    → length (drop 1 (records ++ r ∷ [])) ≡ length records
length-drop-one [] r = refl
length-drop-one (x ∷ records) r = length-append records (r ∷ []) ∙ omega arith

newest-step :
    (max : ℕ) (records : List ExecutionRecord) (r : ExecutionRecord) (new : List ExecutionRecord)
    → newest max (step max records r) new ≡ newest max records (r ∷ new)
newest-step max records r new =
    let len = length-append records (r ∷ []) in
    elim (Bool-cases (ltb max (length (records ++ r ∷ [])))) [
      | inl over ↦
          let left : dropped max (length records) (length new) ≡ length new =
            ground (arith, len, over) in
          let right : dropped max (length records) (suc (length new)) ≡ suc (length new) =
            ground (arith, len, over) in
          rw (over, length-drop-one records r, left, right) (drop-one (length new) records r new)
      | inr room ↦
          let same : dropped max (length records + 1) (length new)
              ≡ dropped max (length records) (suc (length new)) =
            ground (arith, len, room) in
          rw (room, len, same)
            (ap (drop (dropped max (length records) (suc (length new))))
              (append_assoc records (r ∷ []) new))
    ]

none_dropped : (max old : ℕ) → dropped max old 0 ≡ 0
none_dropped max old = ground arith

newest-nil : (max : ℕ) (records : List ExecutionRecord) → newest max records [] ≡ records
newest-nil max records = rw (none_dropped max (length records)) (append-nil records)

-- What the memory is to hold of an attempt that succeeds, and of one that fails.
abbrev success_of : Attempts → String → String → GoMap Value → ℕ → GoMap Value → ExecutionRecord
success_of o id goal_id input attempt output = record {
  id = id;
  goal_id = goal_id;
  action_id = id;
  start_time = o.started attempt;
  end_time = o.ended attempt;
  status = "success";
  input = input;
  output = some output;
  error = none;
  retry_attempt = attempt;
}

abbrev failure_of : Attempts → String → String → GoMap Value → ℕ → Error → ExecutionRecord
failure_of o id goal_id input attempt e = record {
  id = id;
  goal_id = goal_id;
  action_id = id;
  start_time = o.started attempt;
  end_time = o.ended attempt;
  status = "failed";
  input = input;
  output = none;
  error = some e;
  retry_attempt = attempt;
}

-- one for each attempt that fails before one succeeds, and one for that
unfoldable pub records_of : Attempts → String → String → GoMap Value → ℕ → ℕ → List ExecutionRecord
records_of o id goal_id input zero i = []
records_of o id goal_id input (suc left) i = elim (o.once i) [
  | ok output ↦ success_of o id goal_id input i output ∷ []
  | err e ↦ failure_of o id goal_id input i e ∷ records_of o id goal_id input left (i + 1)
]

-- The memory afterwards holds the newest of its records and the new ones, up to its bound.
pub record Keeps (new : List ExecutionRecord) (before after : ActionDispatcher) : Type 0 where
  pub records :
      after.short_term_mem.records
      ≡ newest before.short_term_mem.max_records before.short_term_mem.records new
  pub bound : after.short_term_mem.max_records ≡ before.short_term_mem.max_records

pub Keeps-nil : (ad : ActionDispatcher) → Keeps [] ad ad
Keeps-nil ad = record {
  records = sym (newest-nil ad.short_term_mem.max_records ad.short_term_mem.records);
  bound = refl;
}

pub Keeps-note_success :
    (o : Attempts) (id goal_id : String) (input : GoMap Value) (attempt : ℕ) (output : GoMap Value)
    (ad : ActionDispatcher)
    → Keeps
        (success_of o id goal_id input attempt output ∷ [])
        ad
        (note_success o id goal_id input attempt output ad)
unfolding add_record
Keeps-note_success o id goal_id input attempt output ad =
    let r = success_of o id goal_id input attempt output in
    let m = ad.short_term_mem in
    record {
      records =
          sym (newest-nil m.max_records (step m.max_records m.records r))
          ∙ newest-step m.max_records m.records r [];
      bound = refl;
    }

pub Keeps-note_failure :
    (o : Attempts) (id goal_id : String) (input : GoMap Value) (attempt : ℕ) (e : Error)
    (new : List ExecutionRecord) (ad after : ActionDispatcher)
    → Keeps new (note_failure o id goal_id input attempt e ad) after
    → Keeps (failure_of o id goal_id input attempt e ∷ new) ad after
unfolding add_record record_failure
Keeps-note_failure o id goal_id input attempt e new ad after h =
    let m = ad.short_term_mem in
    record {
      records =
          h.records
          ∙ newest-step m.max_records m.records (failure_of o id goal_id input attempt e) new;
      bound = h.bound;
    }
