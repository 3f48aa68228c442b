-- ===== src/Analysis/Bottlenecks.antt =====
-- `DetectBottlenecks` of pkg/analysis.go. The spans come from `OrderSpans`, whose list may hold nil
-- pointers, on which the reading of a field panics; `none` is a search of `OrderSpans` that runs out
-- of fuel. `sort_slice` is `sort.Slice`.
pub mod Missing
mod Tests
use dapper_distributed_traci.Prelude.{
  Bool, true, false, ◌&&◌, String, ◌==◌, Option, none, some, List, [], ◌∷◌, ◌++◌, if◌then◌else◌,
  Result, ok, err, panic, ◌>>=◌, eqb, length,
}
use dapper_distributed_traci.Prelude.Int.{ℤ, pos, ltb_ℤ, eqb_ℤ, add_int64, sub_int64}
use dapper_distributed_traci.Table.{Table, insert}
use dapper_distributed_traci.Time.{Time}
use dapper_distributed_traci.Wire.{Timestamp, Span, Trace, status_error}
use dapper_distributed_traci.Ordering.{order_spans}
use dapper_distributed_traci.Analysis.{Floats, between, latency_ms, operation_key}
use dapper_distributed_traci.Analysis.CriticalPath.{children_of}

pub record Bottleneck (F : Type 0) : Type 0 where
  pub service_name : String
  pub operation_name : String
  pub latency_ms : ℤ
  pub percent_of_total : F
  pub error_rate : F
  pub dependencies : List String

add_to_parent : Span → Table (List Span) → Table (List Span)
add_to_parent span child_map =
    if span.parent_span_id == ""
    then child_map
    else insert span.parent_span_id (children_of span.parent_span_id child_map ++ span ∷ [])
        child_map

pub group_children : List (Option Span) → Table (List Span) → Result (Table (List Span))
unfolding add_to_parent
group_children [] child_map = ok child_map
group_children (none ∷ rest) child_map = panic
group_children (some span ∷ rest) child_map = group_children rest (add_to_parent span child_map)

abbrev pub latency_or_0 : Option ℤ → ℤ
latency_or_0 none = pos 0
latency_or_0 (some latency) = latency

-- The sum of the children's latencies.
sum_latencies : (Timestamp → Time) → List Span → ℤ → ℤ
sum_latencies as_time [] sum = sum
sum_latencies as_time (child ∷ rest) sum =
    sum_latencies as_time rest (add_int64 sum (latency_or_0 (latency_ms as_time child)))

child_services : List Span → List String
child_services [] = []
child_services (child ∷ rest) =
    operation_key child.service_name child.operation_name ∷ child_services rest

module _ {F : Type 0} (floats : Floats F) (as_time : Timestamp → Time) where
  bottleneck_of : Span → ℤ → ℤ → List Span → Bottleneck F
  unfolding child_services
  bottleneck_of span own total children = record {
    service_name = span.service_name;
    operation_name = span.operation_name;
    latency_ms = own;
    percent_of_total =
        floats.times (floats.over (floats.of_int own) (floats.of_int total))
          (floats.of_int (pos 100));
    error_rate =
        if eqb_ℤ span.status status_error then floats.of_int (pos 1) else floats.of_int (pos 0);
    dependencies = child_services children;
  }

  -- More than a tenth of the total is spent in the span itself.
  is_significant : ℤ → ℤ → Bool
  is_significant own total =
      ltb_ℤ (pos 0) own
      && floats.less floats.tenth (floats.over (floats.of_int own) (floats.of_int total))

  add_bottleneck :
      ℤ → Table (List Span) → Span → Option ℤ → List (Bottleneck F) → List (Bottleneck F)
  unfolding bottleneck_of is_significant sum_latencies
  add_bottleneck total child_map span none found = found
  add_bottleneck total child_map span (some latency) found =
      let children = children_of span.span_id child_map in
      let own = sub_int64 latency (sum_latencies as_time children (pos 0)) in
      if is_significant own total
      then found ++ bottleneck_of span own total children ∷ []
      else found

  pub find_bottlenecks :
      ℤ
      → Table (List Span)
      → List (Option Span)
      → List (Bottleneck F)
      → Result (List (Bottleneck F))
  unfolding add_bottleneck
  find_bottlenecks total child_map [] found = ok found
  find_bottlenecks total child_map (none ∷ rest) found = panic
  find_bottlenecks total child_map (some span ∷ rest) found =
      find_bottlenecks total child_map rest
        (add_bottleneck total child_map span (latency_ms as_time span) found)

  slower : Bottleneck F → Bottleneck F → Bool
  slower a b = ltb_ℤ b.latency_ms a.latency_ms

  module _
      (sort_slice : (Bottleneck F → Bottleneck F → Bool)
        → List (Bottleneck F)
        → List (Bottleneck F)) where
    pub bottlenecks_of : Trace Span → List (Option Span) → Result (List (Bottleneck F))
    unfolding slower group_children find_bottlenecks
    bottlenecks_of trace ordered = do
      child_map ← group_children ordered []
      found ←
          find_bottlenecks (latency_or_0 (between as_time trace.start_time trace.end_time))
            child_map ordered []
      ok (sort_slice slower found)

    ordered_bottlenecks :
        Trace Span → Option (List (Option Span)) → Option (Result (List (Bottleneck F)))
    unfolding bottlenecks_of
    ordered_bottlenecks trace none = none
    ordered_bottlenecks trace (some ordered) = some (bottlenecks_of trace ordered)

    -- `order` is the order in which `OrderSpans` goes over the keys of its graph.
    pub detect_bottlenecks :
        List String → Option (Trace Span) → Option (Result (List (Bottleneck F)))
    unfolding ordered_bottlenecks
    detect_bottlenecks order none = some (ok [])
    detect_bottlenecks order (some trace) =
        if eqb (length trace.spans) 0
        then some (ok [])
        else ordered_bottlenecks trace (order_spans order trace.spans)
