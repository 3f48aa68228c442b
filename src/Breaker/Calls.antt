-- ===== src/Breaker/Calls.antt =====
-- When `Execute` calls the function, and what the breaker looks like between two calls.
use dapper_distributed_traci.Prelude.{◌≡◌, ◌≢◌, ◌⊎◌, ◌↔◌, true, false, Option, none, arith, Error}
use dapper_distributed_traci.Prelude.Int.{pos, ◌≤ℤ◌, ◌<ℤ◌, max_int}
use dapper_distributed_traci.Time.{Time, sub}
use dapper_distributed_traci.Breaker.{
  CircuitBreaker, CircuitBreakerConfig, new_circuit_breaker, circuit_closed, circuit_open,
  circuit_half_open, execute,
}

-- Between two calls on one goroutine. A half-open breaker has had as many calls as successes, fewer
-- than its limit.
pub record IsValid (cb : CircuitBreaker) : Type 0 where
  pub threshold_positive : pos 1 ≤ℤ cb.failure_threshold
  pub calls_positive : pos 1 ≤ℤ cb.half_open_max_calls
  pub failures_low : cb.state ≡ circuit_closed → cb.failure_count <ℤ cb.failure_threshold
  pub threshold_int : cb.failure_threshold ≤ℤ pos max_int
  pub calls_int : cb.half_open_max_calls ≤ℤ pos max_int
  pub calls_low : cb.half_open_call_count ≤ℤ cb.half_open_max_calls
  pub calls_left : cb.state ≡ circuit_half_open → cb.half_open_call_count <ℤ cb.half_open_max_calls
  pub calls_counted :
      cb.state ≡ circuit_half_open → cb.half_open_call_count ≡ cb.half_open_success_count
  pub successes_low :
      cb.state ≡ circuit_half_open → cb.half_open_success_count <ℤ cb.half_open_max_calls

-- A new breaker whose threshold and call limit are positive `int`s is valid.
pub new_circuit_breaker-IsValid :
    (c : CircuitBreakerConfig)
    → pos 1 ≤ℤ c.threshold
    → c.threshold ≤ℤ pos max_int
    → pos 1 ≤ℤ c.half_open_max_calls
    → c.half_open_max_calls ≤ℤ pos max_int
    → IsValid (new_circuit_breaker c)
unfolding new_circuit_breaker
new_circuit_breaker-IsValid c a b d e = ground arith

-- A valid breaker is valid after `Execute` on one goroutine, whatever the function returns: below
-- its failure threshold while it is closed, and, while it is half-open, with as many calls counted
-- as successes, fewer than its call limit.
pub execute-IsValid :
    (now later : Time) (r : Option Error) (cb : CircuitBreaker)
    → IsValid cb
    → IsValid (execute now later r cb).0
unfolding execute
execute-IsValid now later r cb v = ground arith

-- `Execute` calls the function of a breaker with a positive call limit exactly when it is closed, or open for longer
-- than its timeout, or half-open with calls left.
pub execute_calls_iff :
    (now later : Time) (r : Option Error) (cb : CircuitBreaker)
    → pos 1 ≤ℤ cb.half_open_max_calls
    → ((execute now later r cb).2 ≡ true) ↔ (
        (cb.state ≡ circuit_closed)
        ⊎ ((cb.state ≡ circuit_open) × (cb.reset_timeout <ℤ sub now cb.last_failure_time))
        ⊎ ((cb.state ≡ circuit_half_open) × (cb.half_open_call_count <ℤ cb.half_open_max_calls)))
unfolding execute
execute_calls_iff now later r cb v = (λ h. ground arith, λ h. ground arith)

-- A call of `Execute` on a breaker with a positive call limit either calls the function and returns its result, or
-- returns an error of its own and leaves the breaker as it was.
pub execute_result :
    (now later : Time) (r : Option Error) (cb : CircuitBreaker)
    → pos 1 ≤ℤ cb.half_open_max_calls
    → (((execute now later r cb).2 ≡ true) × ((execute now later r cb).1 ≡ r))
      ⊎ (((execute now later r cb).2 ≡ false)
          × ((execute now later r cb).0 ≡ cb)
          × ((execute now later r cb).1 ≢ none))
unfolding execute
execute_result now later r cb v = ground arith
