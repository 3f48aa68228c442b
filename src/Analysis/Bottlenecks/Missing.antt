-- ===== src/Analysis/Bottlenecks/Missing.antt =====
-- `DetectBottlenecks` on traces with and without all their parents.
use dapper_distributed_traci.Prelude.{
  ◌≤◌, Bool, true, false, String, ◌≡◌, refl, ◌∙◌, Option, none, some, List, [], ◌∷◌, any, eqb,
  length, arith, ok, panic,
}
use dapper_distributed_traci.Prelude.Int.{ℤ}
use dapper_distributed_traci.Table.{Table}
use dapper_distributed_traci.Time.{Time}
use dapper_distributed_traci.Wire.{Timestamp, Span, Trace}
use dapper_distributed_traci.Ordering.{order_spans}
use dapper_distributed_traci.Ordering.Result.{order_spans_complete, IsOrder}
use dapper_distributed_traci.Ordering.Causality.{order_spans_nil, is_nil, misses_parent}
use dapper_distributed_traci.Analysis.{Floats, between, latency_ms}
use dapper_distributed_traci.Analysis.Bottlenecks.{
  Bottleneck, group_children, add_to_parent, find_bottlenecks, add_bottleneck, bottlenecks_of,
  ordered_bottlenecks, detect_bottlenecks, slower, latency_or_0,
}

grouped_nil :
    (spans : List (Option Span)) (m : Table (List Span))
    → any is_nil spans ≡ true
    → group_children spans m ≡ panic
unfolding group_children
grouped_nil [] m h = absurd (cc)
grouped_nil (none ∷ rest) m h = refl
grouped_nil (some span ∷ rest) m h = grouped_nil rest (add_to_parent span m) h

grouped_all :
    (spans : List (Option Span)) (m : Table (List Span))
    → any is_nil spans ≡ false
    → (m' : Table (List Span)) × (group_children spans m ≡ ok m')
unfolding group_children
grouped_all [] m h = (m, refl)
grouped_all (none ∷ rest) m h = absurd (cc)
grouped_all (some span ∷ rest) m h = grouped_all rest (add_to_parent span m) h

module _ {F : Type 0} (floats : Floats F) (as_time : Timestamp → Time) where
  found_all :
      (total : ℤ) (m : Table (List Span)) (spans : List (Option Span)) (found : List (Bottleneck F))
      → any is_nil spans ≡ false
      → (all : List (Bottleneck F)) × (find_bottlenecks floats as_time total m spans found ≡ ok all)
  unfolding find_bottlenecks
  found_all total m [] found h = (found, refl)
  found_all total m (none ∷ rest) found h = absurd (cc)
  found_all total m (some span ∷ rest) found h =
      found_all total m rest
        (add_bottleneck floats as_time total m span (latency_ms as_time span) found) h

  module _
      (sort_slice : (Bottleneck F → Bottleneck F → Bool)
        → List (Bottleneck F)
        → List (Bottleneck F)) where
    bottlenecks_nil :
        (trace : Trace Span) (ordered : List (Option Span))
        → any is_nil ordered ≡ true
        → bottlenecks_of floats as_time sort_slice trace ordered ≡ panic
    unfolding bottlenecks_of
    bottlenecks_nil trace ordered h = rw (grouped_nil ordered [] h) refl

    bottlenecks_all :
        (trace : Trace Span) (ordered : List (Option Span))
        → any is_nil ordered ≡ false
        → (found : List (Bottleneck F)) × (bottlenecks_of floats as_time sort_slice trace ordered
            ≡ ok found)
    unfolding bottlenecks_of
    bottlenecks_all trace ordered h =
        let (m, grouped) = grouped_all ordered [] h in
        let (all, found) =
          found_all (latency_or_0 (between as_time trace.start_time trace.end_time)) m ordered []
            h in
        (sort_slice (slower floats as_time) all, rw (grouped, found) refl)

    detect_ordered :
        (order : List String) (trace : Trace Span) (ordered : List (Option Span))
        → IsOrder order trace.spans
        → 2 ≤ length trace.spans
        → order_spans order trace.spans ≡ some ordered
        → (misses_parent trace.spans ≡ true
            → detect_bottlenecks floats as_time sort_slice order (some trace) ≡ some panic)
          × (misses_parent trace.spans ≡ false
              → (found : List (Bottleneck F)) × (detect_bottlenecks floats as_time sort_slice order
                    (some trace)
                  ≡ some (ok found)))
    unfolding detect_bottlenecks ordered_bottlenecks
    detect_ordered order trace ordered full many at =
        let same = order_spans_nil order trace.spans ordered full many at in
        let there : eqb (length trace.spans) 0 ≡ false = ground (arith, many) in
        (
          λ missing. rw (there, at, bottlenecks_nil trace ordered (same ∙ missing)) refl,
          λ all.
              let (found, e) = bottlenecks_all trace ordered (same ∙ all) in
              (found, rw (there, at, e) refl),
        )

    -- For a trace of two or more spans and any order of iteration in `OrderSpans`, DetectBottlenecks
    -- ends: it panics if some span names a parent that is no span of the trace, and else returns.
    pub detect_bottlenecks_lem :
        (order : List String) (trace : Trace Span)
        → IsOrder order trace.spans
        → 2 ≤ length trace.spans
        → (misses_parent trace.spans ≡ true
            → detect_bottlenecks floats as_time sort_slice order (some trace) ≡ some panic)
          × (misses_parent trace.spans ≡ false
              → (found : List (Bottleneck F)) × (detect_bottlenecks floats as_time sort_slice order
                    (some trace)
                  ≡ some (ok found)))
    detect_bottlenecks_lem order trace full many =
        let (_, at, _, _) = order_spans_complete order trace.spans full many in
        detect_ordered order trace _ full many at
