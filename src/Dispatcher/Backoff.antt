-- ===== src/Dispatcher/Backoff.antt =====
-- How long the dispatcher waits between two attempts.
use native.Mathlib.Nat.{mul_assoc, pow-succ', mul-le-mul_left}
use ugem.Prelude.{
  ℕ, zero, suc, ◌+◌, ◌-◌, ◌*◌, ◌^◌, ◌≤◌, ◌<◌, ◌≡◌, refl, sym, ap, subst, ◌∙◌, some, if◌then◌else◌,
  u64, ltb, arith,
}
use ugem.Goal.{exponential, RetryStrategy}
use ugem.Dispatcher.{default_delay, initial_of, max_of, doubled, grown, calculate_backoff}

pow_pos : (n : ℕ) → 1 ≤ 2 ^ n
pow_pos zero = omega arith
pow_pos (suc n) = omega (arith, pow-succ' 2 n, pow_pos n)

doubled_eq : (n delay : ℕ) → delay * 2 ^ n < 2 ^ 64 → doubled n delay ≡ delay * 2 ^ n
unfolding doubled
doubled_eq zero delay h = omega arith
doubled_eq (suc n) delay h =
    let e : delay * 2 ^ suc n ≡ delay * 2 * 2 ^ n =
      ap (λ p. delay * p) (pow-succ' 2 n) ∙ sym (mul_assoc delay 2 (2 ^ n)) in
    let bound : delay * 2 * 2 ^ n < 2 ^ 64 = subst (λ x. x < 2 ^ 64) e h in
    let small : delay * 2 < 2 ^ 64 =
      omega (arith, mul-le-mul_left (delay * 2) (pow_pos n), bound) in
    let exact : u64 (delay * 2) ≡ delay * 2 = omega (arith, small) in
    ap (doubled n) exact ∙ doubled_eq n (delay * 2) bound ∙ sym e

-- The exponential strategy doubles the initial delay with each attempt, up to the greatest delay, as
-- long as the doubled delay fits an `int64`.
pub calculate_backoff-exponential :
    (backoff : RetryStrategy) (attempt : ℕ)
    → backoff.strategy ≡ exponential
    → initial_of backoff * 2 ^ attempt < 2 ^ 63
    → backoff.max_delay < 2 ^ 63
    → calculate_backoff (some backoff) attempt ≡ (
        if ltb (max_of backoff) (initial_of backoff * 2 ^ attempt)
        then max_of backoff
        else initial_of backoff * 2 ^ attempt)
unfolding calculate_backoff grown
calculate_backoff-exponential backoff attempt strategy fits small =
    let e = doubled_eq attempt (initial_of backoff) (omega (arith, fits)) in
    ground (arith, strategy, e, fits, small)

doubled_zero : (n : ℕ) → doubled n 0 ≡ 0
unfolding doubled
doubled_zero zero = refl
doubled_zero (suc n) = doubled_zero n

doubled_add : (m n t delay : ℕ) → t ≡ m + n → doubled t delay ≡ doubled n (doubled m delay)
unfolding doubled
doubled_add zero n t delay e = let e' : t ≡ n = omega (arith, e) in ap (λ k. doubled k delay) e'
doubled_add (suc m) n zero delay e = absurd (omega (arith, e))
doubled_add (suc m) n (suc t) delay e = doubled_add m n t (u64 (delay * 2)) (omega (arith, e))

default_vanishes : doubled 56 default_delay ≡ 0
unfolding doubled
default_vanishes = refl

-- Nothing guards the doubling: with the default delay, from attempt 56 on the product has lost all
-- its bits and the wait is 0.
exponential_vanishes :
    (backoff : RetryStrategy) (attempt : ℕ)
    → backoff.strategy ≡ exponential
    → backoff.initial_delay ≡ 0
    → backoff.max_delay ≡ 0
    → 56 ≤ attempt
    → calculate_backoff (some backoff) attempt ≡ 0
unfolding calculate_backoff grown
exponential_vanishes backoff attempt strategy initial cap late =
    let e : doubled attempt default_delay ≡ 0 =
      doubled_add 56 (attempt - 56) attempt default_delay (omega arith)
      ∙ ap (doubled (attempt - 56)) default_vanishes
      ∙ doubled_zero (attempt - 56) in
    ground (arith, strategy, initial, cap, e)
