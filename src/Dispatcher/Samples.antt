-- ===== src/Dispatcher/Samples.antt =====
-- Runs of the dispatcher, and its theorems at them.
use ugem.Prelude.{
  ℕ, ◌*◌, ◌^◌, ltb, if◌then◌else◌, arith, suc, zero, ◌≡◌, refl, true, false, none, some, [], ◌∷◌,
  GoMap, is_some,
}
use ugem.Prelude.Int.{pos}
use ugem.Types.{action_timeout, Value, flag, Result, ok, err}
use ugem.Goal.{exponential, RetryStrategy}
use ugem.Memory.{new_short_term_memory}
use ugem.Dispatcher.{
  Attempts, ActionDispatcher, max_retries, execute_with_retry, initial_of, max_of,
  calculate_backoff,
}
use ugem.Dispatcher.Backoff.{calculate_backoff-exponential}
use ugem.Dispatcher.Records.{Keeps, records_of}
use ugem.Dispatcher.Retries.{
  first_output, failed_tries, last_error, one_if, Counts, execute_with_retry_lem,
}

-- The first attempt runs out of time, the second succeeds.
abbrev second_try : ℕ → Result (GoMap Value)
second_try zero = err action_timeout
second_try (suc i) = ok (("done", flag true) ∷ [])

abbrev attempts : Attempts
attempts = record {
  once = second_try;
  cancelled_before = λ i. false;
  cancelled_waiting = λ i. false;
  started = λ i. i;
  ended = λ i. i;
  elapsed = λ i. i;
  message = λ e. "action timeout";
}

abbrev idle : ActionDispatcher
idle = record {
  short_term_mem = new_short_term_memory 1000;
  metrics = record {
    total_actions = 0;
    successful_actions = 0;
    failed_actions = 0;
    avg_execution_time = 0;
    max_execution_time = 0;
    min_execution_time = 0;
  };
}

execute_with_retry_lem_example :
    let n = max_retries (pos 3) in
    let r = execute_with_retry attempts "mail" "7" [] (pos 3) idle in
    (r.1 ≡ first_output attempts.once n 0)
    × (r.2 ≡ last_error attempts.once n 0 none)
    × Counts "7"
        (failed_tries attempts.once n 0)
        (one_if (is_some (first_output attempts.once n 0)))
        idle
        r.0
    × Keeps (records_of attempts "mail" "7" [] n 0) idle r.0
execute_with_retry_lem_example =
    execute_with_retry_lem attempts "mail" "7" [] (pos 3) idle (λ i. (refl, refl))

abbrev doubling : RetryStrategy
doubling = record { max_attempts = 9; initial_delay = 0; max_delay = 0; strategy = exponential }

calculate_backoff-exponential_example : calculate_backoff (some doubling) 3 ≡ (
    if ltb (max_of doubling) (initial_of doubling * 2 ^ 3)
    then max_of doubling
    else initial_of doubling * 2 ^ 3)
calculate_backoff-exponential_example =
    calculate_backoff-exponential doubling 3 refl (omega arith) (omega arith)
