-- ===== src/Analysis/Examples.antt =====
-- What the tests of the analyses share: whole numbers for `float64`, and small spans and traces.
use dapper_distributed_traci.Prelude.{ℕ, ◌*◌, ◌/◌, ◌+◌, String, none, some, List, [], ltb}
use dapper_distributed_traci.Prelude.Int.{pos, pos_part}
use dapper_distributed_traci.Time.{Time}
use dapper_distributed_traci.Wire.{Timestamp, Span, Trace, status_ok}
use dapper_distributed_traci.Analysis.{Floats}

abbrev pub whole : Floats ℕ
whole = record {
  of_int = λ n. pos_part n;
  truncate = λ n. pos n;
  plus = λ a b. a + b;
  times = λ a b. a * b;
  over = λ a b. a / b;
  less = λ a b. ltb a b;
  tenth = 0;
}

abbrev pub as_time : Timestamp → Time
as_time t = pos_part t.seconds * 1_000_000_000

abbrev pub call : String → String → String → ℕ → ℕ → Span
call service id parent start end = record {
  span_id = id;
  trace_id = "t";
  parent_span_id = parent;
  service_name = service;
  operation_name = "o";
  start_time = some (record { seconds = pos start; nanos = pos 0 });
  end_time = some (record { seconds = pos end; nanos = pos 0 });
  annotations = [];
  status = status_ok;
  vector_clock = none;
  node_id = "n";
}

abbrev pub trace_of : List Span → Trace Span
trace_of spans = record {
  trace_id = "t";
  spans = spans;
  start_time = some (record { seconds = pos 0; nanos = pos 0 });
  end_time = some (record { seconds = pos 10; nanos = pos 0 });
  root_service = "";
  root_operation = "";
}
