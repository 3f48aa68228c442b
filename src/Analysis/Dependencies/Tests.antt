-- ===== src/Analysis/Dependencies/Tests.antt =====
-- The graph of two services, of which one calls the other twice.
use dapper_distributed_traci.Prelude.{refl, List, [], ◌∷◌}
use dapper_distributed_traci.Wire.{Span, Trace}
use dapper_distributed_traci.Analysis.Examples.{whole, as_time, call, trace_of}
use dapper_distributed_traci.Analysis.Dependencies.{dependency_at, record_traces, service_of}
use dapper_distributed_traci.Analysis.Dependencies.Calls.{Counts}
use dapper_distributed_traci.Analysis.Dependencies.Counting.{record_traces_lem}

abbrev traces : List (Trace Span)
traces = trace_of (call "web" "a" "" 0 9 ∷ call "db" "b" "a" 1 2 ∷ call "db" "c" "a" 3 4 ∷ []) ∷ []

record_traces_lem_example :
    Counts whole "web" "db" "o" 2 0
      (dependency_at whole "web" "db" "o" (record_traces whole as_time traces []))
unfolding service_of
record_traces_lem_example = record_traces_lem whole as_time "web" "db" "o" refl refl traces
