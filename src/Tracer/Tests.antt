-- ===== src/Tracer/Tests.antt =====
-- The theorems on the tracer at one whose breaker has just opened, and at a parent with a clock.
use dapper_distributed_traci.Prelude.{
  ◌+◌, ◌/◌, ◌%◌, ◌<◌, ◌≡◌, refl, true, false, some, none, [], ◌∷◌, arith, ok,
}
use dapper_distributed_traci.Prelude.Int.{pos, u64_mod}
use dapper_distributed_traci.Table.{lookup}
use dapper_distributed_traci.Time.{Time, second}
use dapper_distributed_traci.Wire.{Timestamp, status_ok}
use dapper_distributed_traci.Clock
use dapper_distributed_traci.Clock.{VectorClock, compare, before}
use dapper_distributed_traci.Clock.Order.{IsClock}
use dapper_distributed_traci.Breaker.{CircuitBreaker, circuit_open, is_open}
use dapper_distributed_traci.Span.{Span, with_parent_span}
use dapper_distributed_traci.Buffer.{add}
use dapper_distributed_traci.Tracer.{
  Tracer, start_span, is_dropped, finish_span, try_submit_span, buffered, worker_turn, flush_turn,
}
use dapper_distributed_traci.Tracer.Starting.{start_span-with_parent_span}
use dapper_distributed_traci.Tracer.Outage.{Steps, stay, next, finishes, turns, Steps-stay_open}

abbrev timestamp : Time → Timestamp
timestamp t = record { seconds = pos (t / second); nanos = pos (t % second) }

abbrev clock : VectorClock
clock = record { timestamps = ("n", 4) ∷ [] }

abbrev span : Span
span = record {
  span_id = "s";
  trace_id = "t";
  parent_span_id = "";
  service_name = "web";
  operation_name = "o";
  start_time = 0;
  end_time = 0;
  annotations = [];
  status = status_ok;
  vector_clock = some clock;
  node_id = "n";
  has_tracer = true;
}

abbrev tripped : CircuitBreaker
tripped = record {
  state = circuit_open;
  failure_count = pos 3;
  last_failure_time = 5;
  failure_threshold = pos 3;
  reset_timeout = pos 10_000_000_000;
  half_open_max_calls = pos 1;
  half_open_success_count = pos 0;
  half_open_call_count = pos 0;
}

abbrev tracer : Tracer
tracer = record {
  service_name = "web";
  node_id = "n";
  max_batch_size = pos 100;
  buffer = record { spans = []; config = record { size = pos 3 }; dirty = false };
  has_client = true;
  cb = tripped;
}

abbrev tracer_after : Tracer
tracer_after = record tracer {
  buffer = record { spans = span ∷ []; config = record { size = pos 3 }; dirty = true };
}

-- A day later, with a collector that would answer.
finished :
    finish_span timestamp 90_000_000_000_000 90_000_000_000_001 none span tracer ≡ ok tracer_after
unfolding finish_span try_submit_span buffered is_dropped is_open add lookup
finished = refl

turned : worker_turn timestamp true [] none tracer_after ≡ ok tracer_after
unfolding worker_turn flush_turn is_open
turned = refl

a_day : Steps timestamp tracer tracer_after
a_day =
    next (finishes 90_000_000_000_000 90_000_000_000_001 none span finished)
      (next (turns true [] none turned) stay)

tracer_is_open : is_open tracer.cb ≡ true
unfolding is_open
tracer_is_open = refl

Steps-stay_open_example : (tracer_after.cb ≡ tracer.cb) × (is_open tracer_after.cb ≡ true)
Steps-stay_open_example = Steps-stay_open timestamp tracer tracer_after tracer_is_open a_day

clock-IsClock : IsClock clock
unfolding lookup
clock-IsClock = (refl, tt)

small : Clock.count_of (lookup "n" clock.timestamps) + 2 < u64_mod
unfolding lookup
small = omega arith

child_run :
    (vc' : VectorClock) × (let child =
        start_span
          (λ operation trace. true)
          "child"
          "u"
          7
          "o"
          (with_parent_span (some span) ∷ [])
          tracer in
      (child.vector_clock ≡ some vc')
      × (child.trace_id ≡ "t")
      × (child.parent_span_id ≡ "s")
      × (child.span_id ≡ "child"))
    × (compare clock (some vc') ≡ before)
child_run =
    start_span-with_parent_span (λ operation trace. true) "child" "u" 7 "o" tracer span clock refl
      clock-IsClock small
