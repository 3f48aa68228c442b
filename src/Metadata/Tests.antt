-- ===== src/Metadata/Tests.antt =====
-- The round trip of the metadata at a span with a clock, over metadata with an old parent in it.
use dapper_distributed_traci.Prelude.{
  ℕ, String, ◌≡◌, refl, true, Option, none, some, List, [], ◌∷◌, ◌==◌, if◌then◌else◌,
}
use dapper_distributed_traci.Table.{Table, lookup}
use dapper_distributed_traci.Wire.{status_ok}
use dapper_distributed_traci.Clock.{VectorClock}
use dapper_distributed_traci.Span.{Span}
use dapper_distributed_traci.Context.{get_string_from_metadata, parent_span_id_header}
use dapper_distributed_traci.Metadata.{
  inject_span_to_metadata, extract_span_from_metadata, to_json, vector_clock_from_json,
}
use dapper_distributed_traci.Metadata.RoundTrip.{
  received, extract_span_from_metadata-inject_span_to_metadata,
}

abbrev clock : VectorClock
clock = record { timestamps = ("n", 4) ∷ [] }

abbrev marshal : Table ℕ → Option String
marshal [] = some "{}"
marshal (entry ∷ rest) = some "{n:4}"

abbrev unmarshal : String → Option (Table ℕ)
unmarshal text = if text == "{n:4}" then some (("n", 4) ∷ []) else none

abbrev span : Span
span = record {
  span_id = "s";
  trace_id = "t";
  parent_span_id = "";
  service_name = "web";
  operation_name = "o";
  start_time = 0;
  end_time = 0;
  annotations = [];
  status = status_ok;
  vector_clock = some clock;
  node_id = "n";
  has_tracer = true;
}

abbrev outgoing : Option (Table (List String))
outgoing = some ((parent_span_id_header, "old" ∷ []) ∷ [])

extract_span_from_metadata-inject_span_to_metadata_example :
    extract_span_from_metadata unmarshal (inject_span_to_metadata marshal (some span) outgoing)
    ≡ some (received span outgoing (("n", 4) ∷ []))
extract_span_from_metadata-inject_span_to_metadata_example =
    extract_span_from_metadata-inject_span_to_metadata marshal unmarshal span outgoing clock "{n:4}"
      (("n", 4) ∷ []) refl refl refl refl refl refl

-- A span that has no parent arrives with the parent that was in the outgoing metadata.
received_parent : (received span outgoing (("n", 4) ∷ [])).parent_span_id ≡ "old"
unfolding get_string_from_metadata lookup
received_parent = refl

-- A nil clock, and a text that is no clock.
to_json_nil : to_json marshal none ≡ some "{}"
unfolding to_json
to_json_nil = refl

vector_clock_from_json_wrong : vector_clock_from_json unmarshal "[" ≡ none
unfolding vector_clock_from_json
vector_clock_from_json_wrong = refl
