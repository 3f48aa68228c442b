-- ===== src/Breaker.antt =====
-- The circuit breaker of pkg/reliability.go. A method on `*CircuitBreaker` returns the new record;
-- what `Execute` does between two uses of the mutex is a function of its own.
pub mod Calls
pub mod Trips
mod Tests
use dapper_distributed_traci.Prelude.{
  ℕ, String, Bool, true, false, Option, none, some, if◌then◌else◌, List, [], ◌∷◌, Error,
  breaker_open, half_open_limit,
}
use dapper_distributed_traci.Prelude.Int.{ℤ, pos, ltb_ℤ, leb_ℤ, next_int}
use dapper_distributed_traci.Time.{Time, sub}

pub data CircuitBreakerState : Type 0 where
  circuit_closed circuit_open circuit_half_open : CircuitBreakerState

-- The counters are `int`, and `reset_timeout` is a duration.
pub record CircuitBreaker : Type 0 where
  pub state : CircuitBreakerState
  pub failure_count : ℤ
  pub last_failure_time : Time
  pub failure_threshold : ℤ
  pub reset_timeout : ℤ
  pub half_open_max_calls : ℤ
  pub half_open_success_count : ℤ
  pub half_open_call_count : ℤ

pub record CircuitBreakerConfig : Type 0 where
  pub threshold : ℤ
  pub timeout : ℤ
  pub half_open_max_calls : ℤ

pub new_circuit_breaker : CircuitBreakerConfig → CircuitBreaker
new_circuit_breaker config = record {
  state = circuit_closed;
  failure_count = pos 0;
  last_failure_time = 0;
  failure_threshold = config.threshold;
  reset_timeout = config.timeout;
  half_open_max_calls = config.half_open_max_calls;
  half_open_success_count = pos 0;
  half_open_call_count = pos 0;
}

failure_in : CircuitBreakerState → Time → CircuitBreaker → CircuitBreaker
failure_in circuit_closed now cb =
    let t = record cb { failure_count = next_int cb.failure_count } in
    if leb_ℤ cb.failure_threshold t.failure_count
    then record t { state = circuit_open; last_failure_time = now }
    else t
failure_in circuit_half_open now cb = record cb { state = circuit_open; last_failure_time = now }
failure_in circuit_open now cb = cb

pub record_failure : Time → CircuitBreaker → CircuitBreaker
unfolding failure_in
record_failure now cb = failure_in cb.state now cb

success_in : CircuitBreakerState → CircuitBreaker → CircuitBreaker
success_in circuit_closed cb = record cb { failure_count = pos 0 }
success_in circuit_half_open cb =
    let t = record cb { half_open_success_count = next_int cb.half_open_success_count } in
    if leb_ℤ t.half_open_max_calls t.half_open_success_count
    then record t { state = circuit_closed; failure_count = pos 0 }
    else t
success_in circuit_open cb = cb

pub record_success : CircuitBreaker → CircuitBreaker
unfolding success_in
record_success cb = success_in cb.state cb

abbrev pub is_open_state : CircuitBreakerState → Bool
is_open_state circuit_open = true
is_open_state _ = false

unfoldable pub is_open : CircuitBreaker → Bool
is_open cb = is_open_state cb.state

-- The first block of `Execute`, after `state` was read: an open breaker whose timeout has passed
-- becomes half-open. The local `state` comes back beside the breaker.
pub probe : Time → CircuitBreakerState → CircuitBreaker → CircuitBreaker × CircuitBreakerState
probe now circuit_open cb =
    if ltb_ℤ cb.reset_timeout (sub now cb.last_failure_time)
    then (
      record cb {
        state = circuit_half_open;
        half_open_call_count = pos 0;
        half_open_success_count = pos 0;
      },
      circuit_half_open,
    )
    else (cb, circuit_open)
probe now circuit_closed cb = (cb, circuit_closed)
probe now circuit_half_open cb = (cb, circuit_half_open)

-- The tests on the local `state` that follow: an error, or the breaker with which to call.
pub admit : CircuitBreakerState → CircuitBreaker → CircuitBreaker × Option Error
admit circuit_open cb = (cb, some breaker_open)
admit circuit_half_open cb =
    if leb_ℤ cb.half_open_max_calls cb.half_open_call_count
    then (cb, some half_open_limit)
    else (record cb { half_open_call_count = next_int cb.half_open_call_count }, none)
admit circuit_closed cb = (cb, none)

-- What follows the call of `fn`.
pub settle : Time → Option Error → CircuitBreaker → CircuitBreaker
settle now none cb = record_success cb
settle now (some e) cb = record_failure now cb

-- `Execute` on one goroutine: the breaker, the error, and whether `fn` was called. `now` is the
-- time of the test, `later` that of the result `r` of `fn`.
finish : Time → Option Error → CircuitBreaker × Option Error → CircuitBreaker × Option Error × Bool
finish later r (cb, some e) = (cb, some e, false)
finish later r (cb, none) = (settle later r cb, r, true)

pub execute : Time → Time → Option Error → CircuitBreaker → CircuitBreaker × Option Error × Bool
unfolding probe admit settle finish record_failure record_success
execute now later r cb =
    let (cb', state) = probe now cb.state cb in finish later r (admit state cb')
