-- ===== src/Index/Tests.antt =====
-- An index that holds a trace which is stored again.
use dapper_distributed_traci.Prelude.{◌+◌, ◌*◌, ◌≡◌, refl, Option, none, some, List, [], ◌∷◌}
use dapper_distributed_traci.Prelude.Int.{ℤ, pos_part}
use dapper_distributed_traci.Time.{Time, second}
use dapper_distributed_traci.Wire.{Timestamp, Span, Trace, status_ok, status_error}
use dapper_distributed_traci.Index.{TraceIndexEntry, entry_of, update_trace_index, highest_status}
use dapper_distributed_traci.Index.Updating.{entry_at, update_trace_index_lem}

-- The Unix epoch counts this many seconds from the year 1.
abbrev as_time : Option Timestamp → Time
as_time none = 62_135_596_800 * second
as_time (some t) = (62_135_596_800 + pos_part t.seconds) * second + pos_part t.nanos

abbrev span : ℤ → Span
span status = record {
  span_id = "a";
  trace_id = "t";
  parent_span_id = "";
  service_name = "web";
  operation_name = "o";
  start_time = none;
  end_time = none;
  annotations = [];
  status = status;
  vector_clock = none;
  node_id = "n";
}

abbrev trace : Trace Span
trace = record {
  trace_id = "t";
  spans = span status_ok ∷ span status_error ∷ span status_ok ∷ [];
  start_time = none;
  end_time = none;
  root_service = "web";
  root_operation = "o";
}

abbrev index : List TraceIndexEntry
index =
    record {
      trace_id = "t";
      root_service = "";
      root_operation = "";
      start_time = 0;
      end_time = 0;
      status = status_ok;
    }
    ∷ []

error_is_highest : highest_status trace.spans status_ok ≡ status_error
unfolding highest_status
error_is_highest = refl

entry_stored : entry_at "t" (update_trace_index as_time trace index) ≡ some (entry_of as_time trace)
entry_stored = update_trace_index_lem as_time trace index "t"
