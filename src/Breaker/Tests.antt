-- ===== src/Breaker/Tests.antt =====
-- Runs of the circuit breaker, and the theorems on it, with the configuration of `NewTracer`.
use dapper_distributed_traci.Prelude.{
  ◌≡◌, ◌≢◌, ◌⊎◌, ◌↔◌, refl, true, false, some, none, [], ◌∷◌, arith, unavailable, breaker_open,
}
use dapper_distributed_traci.Prelude.Int.{pos, ◌<ℤ◌}
use dapper_distributed_traci.Time.{sub}
use dapper_distributed_traci.Breaker.{
  CircuitBreaker, CircuitBreakerConfig, new_circuit_breaker, circuit_closed, circuit_open,
  circuit_half_open, probe, admit, execute,
}
use dapper_distributed_traci.Breaker.Calls.{
  IsValid, new_circuit_breaker-IsValid, execute-IsValid, execute_calls_iff, execute_result,
}
use dapper_distributed_traci.Breaker.Trips.{run, run_failures, run_recovers, two_probes_pass}

abbrev config : CircuitBreakerConfig
config = record { threshold = pos 3; timeout = pos 10_000_000_000; half_open_max_calls = pos 1 }

abbrev fresh : CircuitBreaker
fresh = record {
  state = circuit_closed;
  failure_count = pos 0;
  last_failure_time = 0;
  failure_threshold = pos 3;
  reset_timeout = pos 10_000_000_000;
  half_open_max_calls = pos 1;
  half_open_success_count = pos 0;
  half_open_call_count = pos 0;
}

abbrev tripped : CircuitBreaker
tripped = record fresh { state = circuit_open; failure_count = pos 3; last_failure_time = 5 }

fresh_is_new : new_circuit_breaker config ≡ fresh
unfolding new_circuit_breaker
fresh_is_new = refl

fresh-IsValid : IsValid fresh
fresh-IsValid = ground arith

tripped-IsValid : IsValid tripped
tripped-IsValid = ground arith

rejects_while_open : execute 6 6 none tripped ≡ (tripped, some breaker_open, false)
unfolding execute
rejects_while_open = refl

new_circuit_breaker-IsValid_example : IsValid (new_circuit_breaker config)
new_circuit_breaker-IsValid_example =
    new_circuit_breaker-IsValid config (omega arith) (omega arith) (omega arith) (omega arith)

execute-IsValid_example :
    IsValid (execute 20_000_000_000 20_000_000_001 (some unavailable) tripped).0
execute-IsValid_example =
    execute-IsValid 20_000_000_000 20_000_000_001 (some unavailable) tripped tripped-IsValid

execute_calls_iff_example : ((execute 6 6 none tripped).2 ≡ true) ↔ (
    (tripped.state ≡ circuit_closed)
    ⊎ ((tripped.state ≡ circuit_open) × (tripped.reset_timeout <ℤ sub 6 tripped.last_failure_time))
    ⊎ ((tripped.state ≡ circuit_half_open)
        × (tripped.half_open_call_count <ℤ tripped.half_open_max_calls)))
execute_calls_iff_example = execute_calls_iff 6 6 none tripped (omega arith)

tripped_result :
    (((execute 6 6 none tripped).2 ≡ true) × ((execute 6 6 none tripped).1 ≡ none))
    ⊎ (((execute 6 6 none tripped).2 ≡ false)
        × ((execute 6 6 none tripped).0 ≡ tripped)
        × ((execute 6 6 none tripped).1 ≢ none))
tripped_result = execute_result 6 6 none tripped (omega arith)

run_failures_example :
    (run (some unavailable) ((1, 2) ∷ (3, 4) ∷ (5, 6) ∷ []) fresh).state ≡ circuit_open
run_failures_example =
    run_failures unavailable ((1, 2) ∷ (3, 4) ∷ (5, 6) ∷ []) fresh 0 3 refl refl refl (omega arith)
      (omega arith) (omega arith) (omega arith)

run_recovers_example :
    (run none ((20_000_000_000, 20_000_000_001) ∷ []) tripped).state ≡ circuit_closed
run_recovers_example =
    run_recovers 20_000_000_000 20_000_000_001 [] tripped 1 refl refl (omega arith) (omega arith)
      (omega arith)

two_probes_pass_example :
    let (a, state1) = probe 20_000_000_000 circuit_open tripped in
    let (b, denied1) = admit state1 a in
    let (c, state2) = probe 20_000_000_001 circuit_open b in
    let (d, denied2) = admit state2 c in
    (denied1 ≡ none) × (denied2 ≡ none) × (d.half_open_call_count ≡ pos 1)
two_probes_pass_example =
    two_probes_pass 20_000_000_000 20_000_000_001 tripped refl refl (omega arith) (omega arith)
