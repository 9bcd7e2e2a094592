-- ===== src/Dispatcher.antt =====
-- runtime/action_dispatcher.go: the retries of an action and the waits between them. A worker runs an
-- attempt in a goroutine of its own, so what the attempts return, when the caller cancels, and the
-- clock are in `Attempts`. The name of a goal is here the event id of the context, in decimal. A
-- `Duration` is the word of its 64 bits, which wraps.
pub mod Records
pub mod Retries
pub mod Backoff
mod Samples
use ugem.Prelude.{
  ℕ, zero, suc, ◌+◌, ◌-◌, ◌*◌, ◌%◌, ◌^◌, ◌≡◌, String, Bool, true, false, not, ◌&&◌, Option, none,
  some, List, [], ◌∷◌, GoMap, if◌then◌else◌, u64, nat_eq, ltb,
}
use ugem.Prelude.Int.{ℤ, pos, negsuc}
use ugem.Types.{Error, action_cancelled, Value, Result, ok, err}
use ugem.Goal.{BackoffStrategy, flat, linear, exponential, fibonacci, RetryStrategy}
use ugem.Memory.{
  ShortTermMemory, add_record, record_failure, Metrics, record_action_success,
  record_action_failure,
}

-- `a < b` of two words that are read as `int64`
abbrev pub signed_ltb : ℕ → ℕ → Bool
signed_ltb a b = ltb (u64 (a + 2 ^ 63)) (u64 (b + 2 ^ 63))

abbrev pub default_delay : ℕ
default_delay = 100000000

abbrev pub default_max_delay : ℕ
default_max_delay = 30000000000

-- The loops over the attempts.
unfoldable pub doubled : ℕ → ℕ → ℕ
doubled zero delay = delay
doubled (suc n) delay = doubled n (u64 (delay * 2))

unfoldable pub fib_loop : ℕ → ℕ → ℕ → ℕ
fib_loop zero a b = a
fib_loop (suc n) a b = fib_loop n b (u64 (a + b))

unfoldable pub grown : BackoffStrategy → ℕ → ℕ → ℕ
grown flat delay attempt = delay
grown linear delay attempt = u64 (delay * (attempt + 1))
grown exponential delay attempt = doubled attempt delay
grown fibonacci delay attempt = u64 (delay * fib_loop attempt 1 1)

-- A delay of 0 stands for 100 milliseconds, a greatest delay of 0 for 30 seconds.
abbrev pub initial_of : RetryStrategy → ℕ
initial_of backoff = if nat_eq backoff.initial_delay 0 then default_delay else backoff.initial_delay

abbrev pub max_of : RetryStrategy → ℕ
max_of backoff = if nat_eq backoff.max_delay 0 then default_max_delay else backoff.max_delay

unfoldable pub calculate_backoff : Option RetryStrategy → ℕ → ℕ
calculate_backoff none attempt = u64 ((attempt + 1) * default_delay)
calculate_backoff (some backoff) attempt =
    let delay = grown backoff.strategy (initial_of backoff) attempt in
    if signed_ltb (max_of backoff) delay then max_of backoff else delay

-- What the attempts meet, by their number.
pub record Attempts : Type 0 where
  pub once : ℕ → Result (GoMap Value)
  pub cancelled_before : ℕ → Bool
  pub cancelled_waiting : ℕ → Bool
  pub started : ℕ → ℕ
  pub ended : ℕ → ℕ
  pub elapsed : ℕ → ℕ
  pub message : Error → String

pub record ActionDispatcher : Type 0 where
  pub short_term_mem : ShortTermMemory
  pub metrics : Metrics

abbrev pub note_success :
    Attempts → String → String → GoMap Value → ℕ → GoMap Value → ActionDispatcher → ActionDispatcher
note_success o id goal_id input attempt output ad = record ad {
  metrics = record_action_success ad.metrics (o.elapsed attempt);
  short_term_mem = add_record ad.short_term_mem (record {
    id = id;
    goal_id = goal_id;
    action_id = id;
    start_time = o.started attempt;
    end_time = o.ended attempt;
    status = "success";
    input = input;
    output = some output;
    error = none;
    retry_attempt = attempt;
  });
}

abbrev pub note_failure :
    Attempts → String → String → GoMap Value → ℕ → Error → ActionDispatcher → ActionDispatcher
note_failure o id goal_id input attempt e ad = record ad {
  metrics = record_action_failure ad.metrics (o.elapsed attempt);
  short_term_mem =
      record_failure
        (add_record ad.short_term_mem (record {
          id = id;
          goal_id = goal_id;
          action_id = id;
          start_time = o.started attempt;
          end_time = o.ended attempt;
          status = "failed";
          input = input;
          output = none;
          error = some e;
          retry_attempt = attempt;
        }))
        goal_id (o.message e);
}

-- The loop with so many attempts left: what it returns is a result and an error, each if not `nil`.
unfoldable pub retry_loop :
    Attempts
    → String
    → String
    → GoMap Value
    → ℕ
    → ℕ
    → Option Error
    → ActionDispatcher
    → ActionDispatcher × Option (GoMap Value) × Option Error
retry_loop o id goal_id input zero attempt last ad = (ad, none, last)
retry_loop o id goal_id input (suc left) attempt last ad =
    if o.cancelled_before attempt
    then (ad, none, some action_cancelled)
    else elim (o.once attempt) [
      | ok output ↦ (note_success o id goal_id input attempt output ad, some output, none)
      | err e ↦
          let ad' = note_failure o id goal_id input attempt e ad in
          let rest = retry_loop o id goal_id input left (attempt + 1) (some e) ad' in
          if not (nat_eq left 0) && o.cancelled_waiting attempt
          then (ad', none, some action_cancelled)
          else rest
    ]

-- `action.Retries`, 1 for 0; the loop does not run for a negative number.
unfoldable pub max_retries : ℤ → ℕ
max_retries (pos zero) = 1
max_retries (pos (suc n)) = suc n
max_retries (negsuc n) = 0

unfoldable pub execute_with_retry :
    Attempts
    → String
    → String
    → GoMap Value
    → ℤ
    → ActionDispatcher
    → ActionDispatcher × Option (GoMap Value) × Option Error
execute_with_retry o id goal_id input retries ad =
    retry_loop o id goal_id input (max_retries retries) 0 none ad
