-- ===== src/Retry.antt =====
-- `ExponentialBackoff` and `RetryWithExponentialBackoff` of pkg/reliability.go. `scale` is
-- `time.Duration(float64(wait) * multiplier)`. What the function and the context answer at each
-- attempt is an argument.
pub mod Attempts
mod Tests
use dapper_distributed_traci.Prelude.{
  ℕ, zero, suc, ◌+◌, Bool, true, false, Option, none, some, List, [], ◌∷◌, if◌then◌else◌, Error,
  context_done, max_attempts,
}
use dapper_distributed_traci.Prelude.Int.{ℤ, pos, negsuc, ltb_ℤ, next_int}

-- The durations are in nanoseconds.
pub record ExponentialBackoff : Type 0 where
  pub initial : ℤ
  pub max_wait : ℤ
  pub current_wait : ℤ
  pub attempts : ℤ

pub new_exponential_backoff : ℤ → ℤ → ExponentialBackoff
new_exponential_backoff initial max_wait = record {
  initial = initial;
  max_wait = max_wait;
  current_wait = initial;
  attempts = pos 0;
}

pub reset : ExponentialBackoff → ExponentialBackoff
reset eb = record eb { current_wait = eb.initial; attempts = pos 0 }

module _ (scale : ℤ → ℤ) where
  pub next_backoff : ExponentialBackoff → ℤ × ExponentialBackoff
  next_backoff eb = (
    eb.current_wait,
    record eb {
      attempts = next_int eb.attempts;
      current_wait =
          let next_wait = scale eb.current_wait in
          if ltb_ℤ eb.max_wait next_wait then eb.max_wait else next_wait;
    },
  )

  module _ (fn : ℕ → Option Error) (done_before done_in_wait : ℕ → Bool) where
    -- `n` attempts are left, of which the next is number `i`. The waits come back with the error.
    pub retry_loop : ℕ → ℕ → ExponentialBackoff → Option Error × List ℤ
    unfolding next_backoff
    retry_loop zero i eb = (some max_attempts, [])
    retry_loop (suc n) i eb =
        let rest = retry_loop n (i + 1) (next_backoff eb).1 in
        let waited = (next_backoff eb).0 ∷ [] in
        if done_before i then (some context_done, []) else elim (fn i) [
          | none ↦ (none, [])
          | some e ↦
              if done_in_wait i
              then (some context_done, waited)
              else (rest.0, (next_backoff eb).0 ∷ rest.1)
        ]

    pub retry_with_exponential_backoff : ℤ → Option Error × List ℤ
    unfolding new_exponential_backoff retry_loop
    retry_with_exponential_backoff (pos n) =
        retry_loop n 0 (new_exponential_backoff (pos 100_000_000) (pos 10_000_000_000))
    retry_with_exponential_backoff (negsuc n) = (some max_attempts, [])
