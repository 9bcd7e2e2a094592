-- ===== src/Dispatcher/Retries.antt =====
-- The retries of an action that nobody cancels, against what its attempts return.
use ugem.Prelude.{
  ℕ, zero, suc, ◌+◌, ◌≡◌, refl, String, Bool, false, ◌⊎◌, Option, none, some, GoMap, if◌then◌else◌,
  is_some, get-put, eq_refl, ap, ◌∙◌, arith, inl, inr,
}
use ugem.Prelude.Int.{ℤ, negsuc}
use ugem.Types.{Error, Value, Result, ok, err}
use ugem.Memory.{
  ShortTermMemory, ExecutionRecord, add_record, record_failure, get_failure_count, Metrics,
  record_action_success, record_action_failure, update_execution_time,
}
use ugem.Dispatcher.Records.{Keeps, Keeps-nil, Keeps-note_success, Keeps-note_failure, records_of}
use ugem.Dispatcher.{
  Attempts, ActionDispatcher, note_success, note_failure, retry_loop, max_retries,
  execute_with_retry,
}

-- the output of the first attempt that succeeds
pub first_output : (ℕ → Result (GoMap Value)) → ℕ → ℕ → Option (GoMap Value)
first_output once zero i = none
first_output once (suc left) i = elim (once i) [
  | ok output ↦ some output
  | err _ ↦ first_output once left (i + 1)
]

-- how many attempts fail before that
pub failed_tries : (ℕ → Result (GoMap Value)) → ℕ → ℕ → ℕ
failed_tries once zero i = 0
failed_tries once (suc left) i = elim (once i) [
  | ok _ ↦ 0
  | err _ ↦ suc (failed_tries once left (i + 1))
]

-- the error of the last attempt that fails, or the one before all of them
pub last_error : (ℕ → Result (GoMap Value)) → ℕ → ℕ → Option Error → Option Error
last_error once zero i last = last
last_error once (suc left) i last = elim (once i) [
  | ok _ ↦ none
  | err e ↦ last_error once left (i + 1) (some e)
]

record_action_failure_lem :
    (m : Metrics) (d : ℕ)
    → ((record_action_failure m d).failed_actions ≡ m.failed_actions + 1)
      × ((record_action_failure m d).successful_actions ≡ m.successful_actions)
      × ((record_action_failure m d).total_actions ≡ m.total_actions + 1)
unfolding record_action_failure update_execution_time
record_action_failure_lem m d = ground arith

record_action_success_lem :
    (m : Metrics) (d : ℕ)
    → ((record_action_success m d).failed_actions ≡ m.failed_actions)
      × ((record_action_success m d).successful_actions ≡ m.successful_actions + 1)
      × ((record_action_success m d).total_actions ≡ m.total_actions + 1)
unfolding record_action_success update_execution_time
record_action_success_lem m d = ground arith

get_failure_count-add_record :
    (m : ShortTermMemory) (r : ExecutionRecord) (goal_id : String)
    → get_failure_count (add_record m r) goal_id ≡ get_failure_count m goal_id
unfolding get_failure_count add_record
get_failure_count-add_record m r goal_id = refl

get_failure_count-record_failure :
    (m : ShortTermMemory) (goal_id message : String)
    → get_failure_count (record_failure m goal_id message) goal_id ≡ get_failure_count m goal_id + 1
unfolding get_failure_count record_failure
get_failure_count-record_failure m goal_id message =
    ground
      (arith, get-put m.failures goal_id goal_id (get_failure_count m goal_id + 1), eq_refl goal_id)

-- How a dispatcher differs after a number of failures, and a success if there is one.
pub record Counts (goal_id : String) (failures successes : ℕ) (before after : ActionDispatcher)
    : Type 0 where
  pub failed : after.metrics.failed_actions ≡ before.metrics.failed_actions + failures
  pub succeeded : after.metrics.successful_actions ≡ before.metrics.successful_actions + successes
  pub tried : after.metrics.total_actions ≡ before.metrics.total_actions + failures + successes
  pub remembered :
      get_failure_count after.short_term_mem goal_id
      ≡ get_failure_count before.short_term_mem goal_id + failures

Counts-note_failure :
    (o : Attempts) (id goal_id : String) (input : GoMap Value) (attempt : ℕ) (e : Error)
    (ad : ActionDispatcher)
    → Counts goal_id 1 0 ad (note_failure o id goal_id input attempt e ad)
Counts-note_failure o id goal_id input attempt e ad =
    let m = record_action_failure_lem ad.metrics (o.elapsed attempt) in
    record {
      failed = m.0;
      succeeded = omega (arith, m.1);
      tried = omega (arith, m.2);
      remembered =
          get_failure_count-record_failure _ goal_id (o.message e)
          ∙ ap (λ n. n + 1) (get_failure_count-add_record ad.short_term_mem _ goal_id);
    }

Counts-note_success :
    (o : Attempts) (id goal_id : String) (input : GoMap Value) (attempt : ℕ) (output : GoMap Value)
    (ad : ActionDispatcher)
    → Counts goal_id 0 1 ad (note_success o id goal_id input attempt output ad)
Counts-note_success o id goal_id input attempt output ad =
    let m = record_action_success_lem ad.metrics (o.elapsed attempt) in
    record {
      failed = omega (arith, m.0);
      succeeded = m.1;
      tried = omega (arith, m.2);
      remembered = omega (arith, get_failure_count-add_record ad.short_term_mem _ goal_id);
    }

Counts-trans :
    (goal_id : String) (f s : ℕ) (a b c : ActionDispatcher)
    → Counts goal_id 1 0 a b
    → Counts goal_id f s b c
    → Counts goal_id (suc f) s a c
Counts-trans goal_id f s a b c p q = record {
  failed = omega (arith, p.failed, q.failed);
  succeeded = omega (arith, p.succeeded, q.succeeded);
  tried = omega (arith, p.tried, q.tried);
  remembered = omega (arith, p.remembered, q.remembered);
}

abbrev pub one_if : Bool → ℕ
one_if b = if b then 1 else 0

-- nobody cancels
abbrev pub IsUndisturbed : Attempts → Type 0
IsUndisturbed o = (i : ℕ) → (o.cancelled_before i ≡ false) × (o.cancelled_waiting i ≡ false)

module _ (o : Attempts) (id goal_id : String) (input : GoMap Value) where
  retry_loop-ok :
      (left i : ℕ) (last : Option Error) (ad : ActionDispatcher) (output : GoMap Value)
      → IsUndisturbed o
      → o.once i ≡ ok output
      → retry_loop o id goal_id input (suc left) i last ad
        ≡ (note_success o id goal_id input i output ad, some output, none)
  unfolding retry_loop
  retry_loop-ok left i last ad output calm e = rw ((calm i).0, e)

  retry_loop-err :
      (left i : ℕ) (last : Option Error) (ad : ActionDispatcher) (e : Error)
      → IsUndisturbed o
      → o.once i ≡ err e
      → retry_loop o id goal_id input (suc left) i last ad
        ≡ retry_loop o id goal_id input left
            (i + 1)
            (some e)
            (note_failure o id goal_id input i e ad)
  unfolding retry_loop
  retry_loop-err left i last ad e calm failed = rw ((calm i).0, failed) (ground (arith, (calm i).1))

Result-cases :
    (r : Result (GoMap Value)) → ((x : GoMap Value) × (r ≡ ok x)) ⊎ ((e : Error) × (r ≡ err e))
Result-cases (ok x) = inl (x, refl)
Result-cases (err e) = inr (e, refl)

module _ (o : Attempts) (id goal_id : String) (input : GoMap Value) where
  retry_loop_lem :
      (left i : ℕ) (last : Option Error) (ad : ActionDispatcher)
      → IsUndisturbed o
      → let r = retry_loop o id goal_id input left i last ad in
        (r.1 ≡ first_output o.once left i)
        × (r.2 ≡ last_error o.once left i last)
        × Counts goal_id
            (failed_tries o.once left i)
            (one_if (is_some (first_output o.once left i)))
            ad
            r.0
        × Keeps (records_of o id goal_id input left i) ad r.0
  unfolding first_output last_error failed_tries records_of retry_loop
  retry_loop_lem zero i last ad calm = (
    refl,
    refl,
    record {
      failed = omega arith;
      succeeded = omega arith;
      tried = omega arith;
      remembered = omega arith;
    },
    Keeps-nil ad,
  )
  retry_loop_lem (suc left) i last ad calm = elim (Result-cases (o.once i)) [
    | inl (output, e) ↦
        rw
          (
            retry_loop-ok o id goal_id input left i last ad output calm e,
            e,
            first_output,
            last_error,
            failed_tries,
            records_of,
          )
          (
            refl,
            refl,
            Counts-note_success o id goal_id input i output ad,
            Keeps-note_success o id goal_id input i output ad,
          )
    | inr (x, e) ↦
        let ad' = note_failure o id goal_id input i x ad in
        let (a, b, c, k) = retry_loop_lem left (i + 1) (some x) ad' calm in
        rw
          (
            retry_loop-err o id goal_id input left i last ad x calm e,
            e,
            first_output,
            last_error,
            failed_tries,
            records_of,
          )
          (
            a,
            b,
            Counts-trans goal_id (failed_tries o.once left (i + 1))
                (one_if (is_some (first_output o.once left (i + 1)))) ad ad' _
                (Counts-note_failure o id goal_id input i x ad) c,
            Keeps-note_failure o id goal_id input i x (records_of o id goal_id input left (i + 1))
                ad _ k,
          )
  ]

-- An action that nobody cancels is tried until an attempt succeeds, at most as often as it has
-- retries: it returns the output of the first attempt that succeeds, or no output and the error of
-- the last attempt. The metrics count each failure and the success once, the memory counts each
-- failure of the goal once, and its records are the newest of those before and of one for each attempt
-- that fails, with its error and its number, and one for the success, with its output.
pub execute_with_retry_lem :
    (o : Attempts) (id goal_id : String) (input : GoMap Value) (retries : ℤ) (ad : ActionDispatcher)
    → IsUndisturbed o
    → let n = max_retries retries in
      let r = execute_with_retry o id goal_id input retries ad in
      (r.1 ≡ first_output o.once n 0)
      × (r.2 ≡ last_error o.once n 0 none)
      × Counts goal_id (failed_tries o.once n 0) (one_if (is_some (first_output o.once n 0))) ad r.0
      × Keeps (records_of o id goal_id input n 0) ad r.0
unfolding execute_with_retry
execute_with_retry_lem o id goal_id input retries ad calm =
    retry_loop_lem o id goal_id input (max_retries retries) 0 none ad calm

-- An action with a negative number of retries is not tried at all, yet it returns neither an output
-- nor an error, as if it had succeeded.
negative_retries_succeed :
    (o : Attempts) (id goal_id : String) (input : GoMap Value) (n : ℕ) (ad : ActionDispatcher)
    → execute_with_retry o id goal_id input (negsuc n) ad ≡ (ad, none, none)
unfolding execute_with_retry max_retries retry_loop
negative_retries_succeed o id goal_id input n ad = refl
