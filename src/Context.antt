-- ===== src/Context.antt =====
-- `StartSpanFromContext` of pkg/tracer.go: a span is linked to the span of the context, or to the one
-- that the metadata of an incoming call names. The metadata maps keys in lower case to their values;
-- `current` is the span of the context, and `md` the metadata of the call, where there are such.
pub mod Linking
mod Tests
use dapper_distributed_traci.Prelude.{
  String, Bool, false, Option, none, some, List, [], ◌∷◌, ◌++◌, ◌==◌, ◌||◌, if◌then◌else◌,
}
use dapper_distributed_traci.Table.{Table, lookup}
use dapper_distributed_traci.Time.{Time}
use dapper_distributed_traci.Wire.{status_unspecified}
use dapper_distributed_traci.Clock.{new_vector_clock}
use dapper_distributed_traci.Span.{Span, SpanOption, with_parent_span}
use dapper_distributed_traci.Tracer.{Tracer, start_span}

abbrev pub span_id_header : String
span_id_header = "x-trace-span-id"

abbrev pub trace_id_header : String
trace_id_header = "x-trace-trace-id"

abbrev pub parent_span_id_header : String
parent_span_id_header = "x-trace-parent-span-id"

abbrev pub first_value : Option (List String) → String
first_value none = ""
first_value (some []) = ""
first_value (some (value ∷ rest)) = value

unfoldable pub get_string_from_metadata : Table (List String) → String → String
unfolding first_value
get_string_from_metadata md key = first_value (lookup key md)

-- The parent that stands for a span of another process.
virtual_parent : String → String → String → String → Span
virtual_parent node_id span_id trace_id parent_id = record {
  span_id = span_id;
  trace_id = trace_id;
  parent_span_id = parent_id;
  service_name = "";
  operation_name = "";
  start_time = 0;
  end_time = 0;
  annotations = [];
  status = status_unspecified;
  vector_clock = some (new_vector_clock node_id);
  node_id = "";
  has_tracer = false;
}

pub parent_options : Option Span → Option (Table (List String)) → String → List SpanOption
unfolding virtual_parent
parent_options (some parent) md node_id = with_parent_span (some parent) ∷ []
parent_options none none node_id = []
parent_options none (some md) node_id =
    let span_id = get_string_from_metadata md span_id_header in
    let trace_id = get_string_from_metadata md trace_id_header in
    let parent_id = get_string_from_metadata md parent_span_id_header in
    if span_id == "" || trace_id == ""
    then []
    else with_parent_span (some (virtual_parent node_id span_id trace_id parent_id)) ∷ []

-- The span, which the new context holds too.
pub start_span_from_context :
    (should_sample : String → String → Bool)
    → (span_id trace_id : String) → (now : Time) → (current : Option Span)
    → (md : Option (Table (List String))) → (operation_name : String) → List SpanOption
    → Tracer
    → Span
unfolding parent_options
start_span_from_context should_sample span_id trace_id now current md operation_name options t =
    start_span should_sample span_id trace_id now operation_name
      (parent_options current md t.node_id ++ options) t
