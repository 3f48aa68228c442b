-- ===== src/Concurrent/Tests.antt =====
-- `DetectConcurrentEvents` on four spans of two nodes.
use dapper_distributed_traci.Prelude.{
  String, ◌≡◌, refl, some, none, List, [], ◌∷◌, map, Distinct, All,
}
use dapper_distributed_traci.Table.{lookup, insert}
use dapper_distributed_traci.Wire
use dapper_distributed_traci.Wire.{Span, status_ok}
use dapper_distributed_traci.Clock.{compare, vector_clock_from_proto}
use dapper_distributed_traci.Concurrent.{
  detect_concurrent_events, group_all, group_span, join_all, join, start_group, is_concurrent,
  add_group,
}
use dapper_distributed_traci.Concurrent.Groups.{
  IsGroup, ids_of_all, detect_concurrent_events_groups,
}

abbrev span : String → Wire.VectorClock → Span
span id clock = record {
  span_id = id;
  trace_id = "t";
  parent_span_id = "";
  service_name = "s";
  operation_name = "o";
  start_time = none;
  end_time = none;
  annotations = [];
  status = status_ok;
  vector_clock = some clock;
  node_id = "n";
}

abbrev spans : List Span
spans =
    span "a" (record { timestamps = ("n", 1) ∷ [] })
    ∷ span "b" (record { timestamps = ("m", 1) ∷ [] })
    ∷ span "c" (record { timestamps = ("n", 2) ∷ ("m", 1) ∷ [] })
    ∷ span "d" (record { timestamps = ("n", 3) ∷ [] })
    ∷ []

found :
    map (λ g. map (λ s. s.span_id) g) (detect_concurrent_events spans)
    ≡ ("a" ∷ "b" ∷ []) ∷ ("c" ∷ "d" ∷ []) ∷ []
unfolding detect_concurrent_events lookup insert group_all group_span join_all join start_group
    is_concurrent compare vector_clock_from_proto add_group
found = refl

detect_concurrent_events_groups_example :
    All IsGroup (detect_concurrent_events spans)
    × Distinct (ids_of_all (detect_concurrent_events spans))
detect_concurrent_events_groups_example = detect_concurrent_events_groups spans
