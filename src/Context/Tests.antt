-- ===== src/Context/Tests.antt =====
-- A call whose metadata names a span.
use dapper_distributed_traci.Prelude.{String, ◌≡◌, refl, true, List, [], ◌∷◌, none, some}
use dapper_distributed_traci.Prelude.Int.{pos}
use dapper_distributed_traci.Table.{Table, lookup}
use dapper_distributed_traci.Breaker.{circuit_closed}
use dapper_distributed_traci.Tracer.{Tracer}
use dapper_distributed_traci.Context.{
  get_string_from_metadata, first_value, trace_id_header, start_span_from_context,
}
use dapper_distributed_traci.Context.Linking.{start_span_from_context_lem}

abbrev metadata : Table (List String)
metadata = ("x-trace-span-id", "caller" ∷ []) ∷ ("x-trace-trace-id", "trace" ∷ "other" ∷ []) ∷ []

abbrev tracer : Tracer
tracer = record {
  service_name = "web";
  node_id = "n";
  max_batch_size = pos 100;
  buffer = record { spans = []; config = record { size = pos 3 }; dirty = true };
  has_client = true;
  cb = record {
    state = circuit_closed;
    failure_count = pos 0;
    last_failure_time = 0;
    failure_threshold = pos 3;
    reset_timeout = pos 10_000_000_000;
    half_open_max_calls = pos 1;
    half_open_success_count = pos 0;
    half_open_call_count = pos 0;
  };
}

first_of_two : get_string_from_metadata metadata trace_id_header ≡ "trace"
unfolding get_string_from_metadata first_value lookup
first_of_two = refl

start_span_from_context_lem_example :
    let span =
      start_span_from_context
        (λ operation trace. true)
        "new"
        "fresh"
        7
        none
        (some metadata)
        "o"
        []
        tracer in
    (span.trace_id ≡ "trace") × (span.parent_span_id ≡ "caller") × (span.span_id ≡ "new")
unfolding get_string_from_metadata lookup
start_span_from_context_lem_example =
    start_span_from_context_lem (λ operation trace. true) "new" "fresh" 7 metadata "o" tracer
