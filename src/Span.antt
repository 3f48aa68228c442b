-- ===== src/Span.antt =====
-- `Span` of pkg/tracer.go and its methods. A nil map of annotations reads as an empty one, and each
-- write makes it first, so both are an empty table. The pointer to the tracer is nil or not.
use dapper_distributed_traci.Prelude.{
  String, Bool, Option, none, some, List, [], ◌∷◌, Result, ok, panic, ◌>>=◌,
}
use dapper_distributed_traci.Table.{Table, insert}
use dapper_distributed_traci.Time.{Time}
use dapper_distributed_traci.Wire
use dapper_distributed_traci.Wire.{Status, Timestamp}
use dapper_distributed_traci.Clock
use dapper_distributed_traci.Clock.{VectorClock}

pub record Span : Type 0 where
  pub span_id : String
  pub trace_id : String
  pub parent_span_id : String
  pub service_name : String
  pub operation_name : String
  pub start_time : Time
  pub end_time : Time
  pub annotations : Table String
  pub status : Status
  pub vector_clock : Option VectorClock
  pub node_id : String
  pub has_tracer : Bool

abbrev pub SpanOption : Type 0
SpanOption = Span → Span

-- A nil clock of the parent is copied to an empty one.
unfoldable pub with_parent_span : Option Span → SpanOption
with_parent_span none s = s
with_parent_span (some parent) s = record s {
  parent_span_id = parent.span_id;
  trace_id = parent.trace_id;
  vector_clock = some (Clock.increment s.node_id (Clock.copy parent.vector_clock));
}

unfoldable pub with_annotation : String → String → SpanOption
with_annotation key value s = record s { annotations = insert key value s.annotations }

-- `value` is the text that `fmt.Sprintf` makes of the value.
unfoldable pub add_annotation : String → String → Span → Span
add_annotation key value s = record s { annotations = insert key value s.annotations }

unfoldable pub set_status : Status → Span → Span
set_status status s = record s { status = status }

-- `for k, v := range s.Annotations { annotations[k] = v }`
pub copy_annotations : Table String → Table String → Table String
copy_annotations [] dst = dst
copy_annotations ((k, v) ∷ rest) dst = copy_annotations rest (insert k v dst)

-- The clock's `ToProto` locks its receiver, and a nil one panics.
abbrev pub clock_to_proto : Option VectorClock → Result Wire.VectorClock
clock_to_proto none = panic
clock_to_proto (some vc) = ok (Clock.to_proto vc)

module _ (new_timestamp : Time → Timestamp) where
  -- The message, with the clock that `ToProto` made.
  pub message : Span → Wire.VectorClock → Wire.Span
  message s vector_clock = record {
    span_id = s.span_id;
    trace_id = s.trace_id;
    parent_span_id = s.parent_span_id;
    service_name = s.service_name;
    operation_name = s.operation_name;
    start_time = some (new_timestamp s.start_time);
    end_time = some (new_timestamp s.end_time);
    annotations = copy_annotations s.annotations [];
    status = s.status;
    vector_clock = some vector_clock;
    node_id = s.node_id;
  }

  unfoldable pub to_proto : Span → Result Wire.Span
  to_proto s = do vector_clock ← clock_to_proto s.vector_clock; ok (message s vector_clock)

  unfoldable pub to_protos : List Span → Result (List Wire.Span)
  to_protos [] = ok []
  to_protos (s ∷ rest) = do p ← to_proto s; ps ← to_protos rest; ok (p ∷ ps)
