-- ===== src/Metadata.antt =====
-- How a span's context travels with a call: `InjectSpanToMetadata` and `ExtractSpanFromMetadata` of
-- pkg/interceptor.go, and the JSON of a vector clock in pkg/clock.go. Metadata maps keys in lower
-- case to their values. `marshal` and `unmarshal` are those of encoding/json for a clock's map.
pub mod RoundTrip
mod Tests
use dapper_distributed_traci.Prelude.{
  ℕ, String, false, Option, none, some, List, [], ◌∷◌, ◌==◌, ◌||◌, if◌then◌else◌,
}
use dapper_distributed_traci.Table.{Table, insert}
use dapper_distributed_traci.Wire.{status_unspecified}
use dapper_distributed_traci.Clock.{VectorClock}
use dapper_distributed_traci.Span.{Span}
use dapper_distributed_traci.Context.{
  get_string_from_metadata, span_id_header, trace_id_header, parent_span_id_header,
}

abbrev pub vector_clock_header : String
vector_clock_header = "x-vector-clock"

-- `md.Set(key, value)`
abbrev set_value : String → String → Table (List String) → Table (List String)
set_value key value md = insert key (value ∷ []) md

-- `metadata.FromOutgoingContext`, and a new map where there is none.
abbrev outgoing_or_new : Option (Table (List String)) → Table (List String)
outgoing_or_new none = []
outgoing_or_new (some md) = md

set_parent : String → Table (List String) → Table (List String)
set_parent parent md = if parent == "" then md else set_value parent_span_id_header parent md

module _ (marshal : Table ℕ → Option String) where
  -- `none` is an error of the package.
  pub to_json : Option VectorClock → Option String
  to_json none = some "{}"
  to_json (some vc) = marshal vc.timestamps

  -- An error is printed, and the clock left out.
  set_clock : Option String → Table (List String) → Table (List String)
  set_clock none md = md
  set_clock (some text) md = set_value vector_clock_header text md

  inject_clock : Option VectorClock → Table (List String) → Table (List String)
  unfolding set_clock to_json
  inject_clock none md = md
  inject_clock (some vc) md = set_clock (to_json (some vc)) md

  -- The metadata of the context that comes back.
  pub inject_span_to_metadata :
      Option Span → Option (Table (List String)) → Option (Table (List String))
  unfolding inject_clock set_parent
  inject_span_to_metadata none md = md
  inject_span_to_metadata (some span) md = some (
      inject_clock span.vector_clock (
        set_parent span.parent_span_id (
          set_value trace_id_header span.trace_id
            (set_value span_id_header span.span_id (outgoing_or_new md)))))

module _ (unmarshal : String → Option (Table ℕ)) where
  pub vector_clock_from_json : String → Option VectorClock
  vector_clock_from_json text = elim (unmarshal text) [
    | none ↦ none
    | some timestamps ↦ some (record { timestamps = timestamps })
  ]

  extract_clock : String → Option VectorClock
  unfolding vector_clock_from_json
  extract_clock text = if text == "" then none else vector_clock_from_json text

  extracted : Table (List String) → Span
  unfolding extract_clock
  extracted md = record {
    span_id = get_string_from_metadata md span_id_header;
    trace_id = get_string_from_metadata md trace_id_header;
    parent_span_id = get_string_from_metadata md parent_span_id_header;
    service_name = "";
    operation_name = "";
    start_time = 0;
    end_time = 0;
    annotations = [];
    status = status_unspecified;
    vector_clock = extract_clock (get_string_from_metadata md vector_clock_header);
    node_id = "";
    has_tracer = false;
  }

  pub extract_span_from_metadata : Option (Table (List String)) → Option Span
  unfolding extracted
  extract_span_from_metadata none = none
  extract_span_from_metadata (some md) =
      if get_string_from_metadata md span_id_header == ""
        || get_string_from_metadata md trace_id_header == ""
      then none
      else some (extracted md)
