-- ===== src/Breaker/Trips.antt =====
-- Runs of `Execute` on one goroutine: failures trip the breaker, successes after its timeout close
-- it. And what two goroutines can do that have both read an open breaker.
use dapper_distributed_traci.Prelude.{
  ℕ, suc, ◌+◌, ◌≤◌, ◌<◌, ◌≡◌, Option, none, some, arith, List, [], ◌∷◌, if◌then◌else◌, Error, leb,
  length, refl, ◌∙◌, Bool-cases, inl, inr,
}
use dapper_distributed_traci.Prelude.Int.{pos, ◌≤ℤ◌, ◌<ℤ◌, max_int}
use dapper_distributed_traci.Time.{Time, sub}
use dapper_distributed_traci.Breaker.{
  CircuitBreaker, circuit_closed, circuit_open, circuit_half_open, probe, admit, execute,
}

-- Calls of `Execute`, one after another: the times at which each starts and ends, and its result.
pub run : Option Error → List (Time × Time) → CircuitBreaker → CircuitBreaker
run r [] cb = cb
run r ((now, later) ∷ rest) cb = run r rest (execute now later r cb).0

abbrev CanProbe : CircuitBreaker → Type 0
CanProbe cb = (pos 1 ≤ℤ cb.half_open_max_calls) × (cb.half_open_max_calls ≤ℤ pos max_int)

-- A failing call finds the breaker open, or opens it.
stays_open :
    (now later : Time) (e : Error) (cb : CircuitBreaker)
    → CanProbe cb
    → cb.state ≡ circuit_open
    → ((execute now later (some e) cb).0.state ≡ circuit_open)
      × CanProbe (execute now later (some e) cb).0
unfolding execute
stays_open now later e cb c h = ground arith

run-stays_open :
    (e : Error) (times : List (Time × Time)) (cb : CircuitBreaker)
    → CanProbe cb
    → cb.state ≡ circuit_open
    → (run (some e) times cb).state ≡ circuit_open
unfolding run
run-stays_open e [] cb c h = h
run-stays_open e ((now, later) ∷ rest) cb c h =
    let (h', c') = stays_open now later e cb c h in
    run-stays_open e rest (execute now later (some e) cb).0 c' h'

failure_step :
    (now later : Time) (e : Error) (cb : CircuitBreaker) (n t : ℕ)
    → cb.state ≡ circuit_closed
    → cb.failure_count ≡ pos n
    → cb.failure_threshold ≡ pos t
    → n < max_int
    → let cb' = (execute now later (some e) cb).0 in
      (cb'.failure_threshold ≡ pos t)
      × (cb'.half_open_max_calls ≡ cb.half_open_max_calls)
      × (cb'.failure_count ≡ pos (suc n))
      × (cb'.state ≡ (if leb t (suc n) then circuit_open else circuit_closed))
unfolding execute
failure_step now later e cb n t s f h b = ground arith

-- From a closed breaker that has counted n failures, below its threshold t, a run of failing calls
-- leaves it open exactly when the failures reach t, and closed otherwise.
pub run_failures :
    (e : Error) (times : List (Time × Time)) (cb : CircuitBreaker) (n t : ℕ)
    → cb.state ≡ circuit_closed
    → cb.failure_count ≡ pos n
    → cb.failure_threshold ≡ pos t
    → n < t
    → t ≤ max_int
    → pos 1 ≤ℤ cb.half_open_max_calls
    → cb.half_open_max_calls ≤ℤ pos max_int
    → (run (some e) times cb).state
      ≡ (if leb t (n + length times) then circuit_open else circuit_closed)
unfolding run
run_failures e [] cb n t s f h b m p q = ground arith
run_failures e ((now, later) ∷ rest) cb n t s f h b m p q =
    let cb' = (execute now later (some e) cb).0 in
    let (h', same, f', s') = failure_step now later e cb n t s f h (omega arith) in
    elim (Bool-cases (leb t (suc n))) [
      | inl trip ↦
          rw (run-stays_open e rest cb' (rw same p, rw same q) (s' ∙ rw trip refl)) (ground arith)
      | inr low ↦
          run_failures e rest cb' (suc n) t (s' ∙ rw low refl) f' h' (ground arith) m (rw same p)
            (rw same q)
          ∙ ground arith
    ]

success_half_open :
    (now later : Time) (cb : CircuitBreaker) (n m : ℕ)
    → cb.state ≡ circuit_half_open
    → cb.half_open_max_calls ≡ pos m
    → cb.half_open_call_count ≡ pos n
    → cb.half_open_success_count ≡ pos n
    → n < m
    → m ≤ max_int
    → let cb' = (execute now later none cb).0 in
      (cb'.half_open_max_calls ≡ pos m)
      × (cb'.half_open_call_count ≡ pos (suc n))
      × (cb'.half_open_success_count ≡ pos (suc n))
      × (cb'.state ≡ (if leb m (suc n) then circuit_closed else circuit_half_open))
unfolding execute
success_half_open now later cb n m s h c k b i = ground arith

stays_closed :
    (now later : Time) (cb : CircuitBreaker)
    → cb.state ≡ circuit_closed
    → (execute now later none cb).0.state ≡ circuit_closed
unfolding execute
stays_closed now later cb h = ground arith

run-stays_closed :
    (times : List (Time × Time)) (cb : CircuitBreaker)
    → cb.state ≡ circuit_closed
    → (run none times cb).state ≡ circuit_closed
unfolding run
run-stays_closed [] cb h = h
run-stays_closed ((now, later) ∷ rest) cb h =
    run-stays_closed rest (execute now later none cb).0 (stays_closed now later cb h)

run_half_open :
    (times : List (Time × Time)) (cb : CircuitBreaker) (n m : ℕ)
    → cb.state ≡ circuit_half_open
    → cb.half_open_max_calls ≡ pos m
    → cb.half_open_call_count ≡ pos n
    → cb.half_open_success_count ≡ pos n
    → n < m
    → m ≤ max_int
    → (run none times cb).state
      ≡ (if leb m (n + length times) then circuit_closed else circuit_half_open)
unfolding run
run_half_open [] cb n m s h c k b i = ground arith
run_half_open ((now, later) ∷ rest) cb n m s h c k b i =
    let cb' = (execute now later none cb).0 in
    let (h', c', k', s') = success_half_open now later cb n m s h c k b i in
    elim (Bool-cases (leb m (suc n))) [
      | inl close ↦ rw (run-stays_closed rest cb' (s' ∙ rw close refl)) (ground arith)
      | inr more ↦
          run_half_open rest cb' (suc n) m (s' ∙ rw more refl) h' c' k' (ground arith) i
          ∙ ground arith
    ]

success_open :
    (now later : Time) (cb : CircuitBreaker) (m : ℕ)
    → cb.state ≡ circuit_open
    → cb.half_open_max_calls ≡ pos m
    → cb.reset_timeout <ℤ sub now cb.last_failure_time
    → 0 < m
    → m ≤ max_int
    → let cb' = (execute now later none cb).0 in
      (cb'.half_open_max_calls ≡ pos m)
      × (cb'.half_open_call_count ≡ pos 1)
      × (cb'.half_open_success_count ≡ pos 1)
      × (cb'.state ≡ (if leb m 1 then circuit_closed else circuit_half_open))
unfolding execute
success_open now later cb m s h e b i = ground arith

-- An open breaker whose timeout has passed at the first of a run of successful calls, and whose
-- call limit is m, is closed after the run exactly when it makes m calls, and else half-open.
pub run_recovers :
    (now later : Time) (rest : List (Time × Time)) (cb : CircuitBreaker) (m : ℕ)
    → cb.state ≡ circuit_open
    → cb.half_open_max_calls ≡ pos m
    → cb.reset_timeout <ℤ sub now cb.last_failure_time
    → 0 < m
    → m ≤ max_int
    → (run none ((now, later) ∷ rest) cb).state
      ≡ (if leb m (1 + length rest) then circuit_closed else circuit_half_open)
unfolding run
run_recovers now later rest cb m s h e b i =
    let cb' = (execute now later none cb).0 in
    let (h', c', k', s') = success_open now later cb m s h e b i in
    elim (Bool-cases (leb m 1)) [
      | inl close ↦ rw (run-stays_closed rest cb' (s' ∙ rw close refl)) (ground arith)
      | inr more ↦ run_half_open rest cb' 1 m (s' ∙ rw more refl) h' c' k' (ground arith) i
    ]

-- Two goroutines that have read an open breaker and find its timeout passed are both let through,
-- one after the other, although one call is all that a half-open breaker may have: the second
-- probe has reset the count of calls.
pub two_probes_pass :
    (now1 now2 : Time) (cb : CircuitBreaker)
    → cb.state ≡ circuit_open
    → cb.half_open_max_calls ≡ pos 1
    → cb.reset_timeout <ℤ sub now1 cb.last_failure_time
    → cb.reset_timeout <ℤ sub now2 cb.last_failure_time
    → let (a, state1) = probe now1 circuit_open cb in
      let (b, denied1) = admit state1 a in
      let (c, state2) = probe now2 circuit_open b in
      let (d, denied2) = admit state2 c in
      (denied1 ≡ none) × (denied2 ≡ none) × (d.half_open_call_count ≡ pos 1)
unfolding probe admit
two_probes_pass now1 now2 cb s m p q = ground arith
