-- ===== src/Analysis/Latency.antt =====
-- `AnalyzeLatency` of pkg/analysis.go. `sort_slice` is `sort.Slice` on the latencies.
pub mod Measuring
pub mod Totals
mod Tests
use dapper_distributed_traci.Prelude.{
  ℕ, ◌+◌, Bool, true, false, ◌&&◌, String, ◌==◌, Option, none, some, List, [], ◌∷◌, if◌then◌else◌,
  Result, ok, err, panic, ◌>>=◌,
}
use dapper_distributed_traci.Prelude.Int.{
  ℤ, pos, negsuc, ltb_ℤ, eqb_ℤ, max_int, next_int, add_int64,
}
use dapper_distributed_traci.Table.{Table, lookup, insert}
use dapper_distributed_traci.Time.{Time}
use dapper_distributed_traci.Wire.{Timestamp, Span, Trace, status_error}
use dapper_distributed_traci.Analysis.{
  Floats, latency_ms, operation_key, running_average, percentile,
}

pub record LatencyInfo (F : Type 0) : Type 0 where
  pub service_name : String
  pub operation_name : String
  pub avg_latency_ms : F
  pub min_latency_ms : ℤ
  pub max_latency_ms : ℤ
  pub p90_latency_ms : ℤ
  pub p95_latency_ms : ℤ
  pub p99_latency_ms : ℤ
  pub total_invocations : ℤ
  pub error_rate : F

module _ {F : Type 0} (floats : Floats F) where
  pub new_info : Span → LatencyInfo F
  new_info span = record {
    service_name = span.service_name;
    operation_name = span.operation_name;
    avg_latency_ms = floats.of_int (pos 0);
    min_latency_ms = pos max_int;
    max_latency_ms = pos 0;
    p90_latency_ms = pos 0;
    p95_latency_ms = pos 0;
    p99_latency_ms = pos 0;
    total_invocations = pos 0;
    error_rate = floats.of_int (pos 0);
  }

  pub or_new_info : Span → Option (LatencyInfo F) → LatencyInfo F
  unfolding new_info
  or_new_info span none = new_info span
  or_new_info span (some info) = info

  -- The statistics with one more call. `TotalInvocations-1` is the count before.
  pub measure : ℤ → Span → LatencyInfo F → LatencyInfo F
  measure latency span info =
      let before = info.total_invocations in
      let count = next_int before in
      record info {
        total_invocations = count;
        avg_latency_ms =
            running_average floats info.avg_latency_ms before (floats.of_int count)
              (floats.of_int latency);
        min_latency_ms = if ltb_ℤ latency info.min_latency_ms then latency else info.min_latency_ms;
        max_latency_ms = if ltb_ℤ info.max_latency_ms latency then latency else info.max_latency_ms;
        error_rate =
            if eqb_ℤ span.status status_error
            then running_average floats info.error_rate before (floats.of_int count)
                (floats.of_int (pos 1))
            else floats.over (floats.times info.error_rate (floats.of_int before))
                (floats.of_int count);
      }

  record_call : Option ℤ → Span → Table (LatencyInfo F) → Table (LatencyInfo F)
  unfolding measure or_new_info
  record_call none span infos = infos
  record_call (some latency) span infos =
      let key = operation_key span.service_name span.operation_name in
      insert key (measure latency span (or_new_info span (lookup key infos))) infos

  module _ (as_time : Timestamp → Time) where
    pub group_calls : List Span → Table (LatencyInfo F) → Table (LatencyInfo F)
    unfolding record_call
    group_calls [] infos = infos
    group_calls (span ∷ rest) infos =
        group_calls rest (record_call (latency_ms as_time span) span infos)

add_latency : Bool → Option ℤ → List ℤ → List ℤ
add_latency false latency rest = rest
add_latency true none rest = rest
add_latency true (some latency) rest = latency ∷ rest

-- The latencies of the timed spans of an operation.
pub latencies_of : (Timestamp → Time) → String → String → List Span → List ℤ
unfolding add_latency
latencies_of as_time service operation [] = []
latencies_of as_time service operation (span ∷ rest) =
    add_latency (span.service_name == service && span.operation_name == operation)
      (latency_ms as_time span) (latencies_of as_time service operation rest)

module _ {F : Type 0} (floats : Floats F) (as_time : Timestamp → Time)
    (sort_slice : List ℤ → List ℤ) where
  with_percentiles : List Span → LatencyInfo F → Result (LatencyInfo F)
  with_percentiles spans info = do
    p90 ←
        percentile floats
          (sort_slice (latencies_of as_time info.service_name info.operation_name spans)) (pos 90)
    p95 ←
        percentile floats
          (sort_slice (latencies_of as_time info.service_name info.operation_name spans)) (pos 95)
    p99 ←
        percentile floats
          (sort_slice (latencies_of as_time info.service_name info.operation_name spans)) (pos 99)
    ok (record info { p90_latency_ms = p90; p95_latency_ms = p95; p99_latency_ms = p99 })

  all_percentiles : List Span → Table (LatencyInfo F) → Result (Table (LatencyInfo F))
  unfolding with_percentiles
  all_percentiles spans [] = ok []
  all_percentiles spans ((key, info) ∷ rest) = do
    filled ← with_percentiles spans info
    others ← all_percentiles spans rest
    ok ((key, filled) ∷ others)

  -- A nil map reads as an empty one.
  pub analyze_latency : Option (Trace Span) → Result (Table (LatencyInfo F))
  unfolding all_percentiles group_calls
  analyze_latency none = ok []
  analyze_latency (some trace) =
      all_percentiles trace.spans (group_calls floats as_time trace.spans [])
