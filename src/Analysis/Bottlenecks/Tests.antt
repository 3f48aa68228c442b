-- ===== src/Analysis/Bottlenecks/Tests.antt =====
-- `DetectBottlenecks` on a trace that lacks the parent of a span.
use dapper_distributed_traci.Prelude.{
  String, ◌≡◌, refl, true, false, some, List, [], ◌∷◌, arith, ok, panic,
}
use dapper_distributed_traci.Wire.{Span}
use dapper_distributed_traci.Ordering.Result.{IsOrder}
use dapper_distributed_traci.Ordering.Causality.{misses_parent}
use dapper_distributed_traci.Analysis.Examples.{whole, as_time, call, trace_of}
use dapper_distributed_traci.Analysis.Bottlenecks.{Bottleneck, detect_bottlenecks}
use dapper_distributed_traci.Analysis.Bottlenecks.Missing.{detect_bottlenecks_lem}

abbrev orphans : List Span
orphans = call "web" "x" "gone" 0 4 ∷ call "db" "y" "x" 1 2 ∷ []

abbrev order : List String
order = "x" ∷ "gone" ∷ "y" ∷ []

orphans-IsOrder : IsOrder order orphans
orphans-IsOrder id = ground arith

detect_bottlenecks_lem_example :
    (misses_parent orphans ≡ true
      → detect_bottlenecks whole as_time (λ before found. found) order (some (trace_of orphans))
        ≡ some panic)
    × (misses_parent orphans ≡ false
        → (found : List (Bottleneck _)) × (detect_bottlenecks whole as_time
              (λ before found. found)
              order
              (some (trace_of orphans))
            ≡ some (ok found)))
detect_bottlenecks_lem_example =
    detect_bottlenecks_lem whole as_time (λ before found. found) order (trace_of orphans)
      orphans-IsOrder (omega arith)

orphans_panic : misses_parent orphans ≡ true
orphans_panic = refl
