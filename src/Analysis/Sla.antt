-- ===== src/Analysis/Sla.antt =====
-- `CalculateServiceSLAs` of pkg/analysis.go. `sort_slice` is `sort.Slice` on the latencies.
mod Tests
use Prim.Native.String.{◌++◌ as concat}
use dapper_distributed_traci.Prelude.{
  Bool, true, false, ◌&&◌, String, ◌==◌, Option, none, some, List, [], ◌∷◌, ◌++◌, if◌then◌else◌,
  Result, ok, err, panic, ◌>>=◌,
}
use dapper_distributed_traci.Prelude.Int.{ℤ, pos, eqb_ℤ, next_int}
use dapper_distributed_traci.Table.{Table, lookup, insert}
use dapper_distributed_traci.Time.{Time, second}
use dapper_distributed_traci.Wire.{Timestamp, Span, Trace, status_ok, status_error, status_timeout}
use dapper_distributed_traci.Analysis.{
  Floats, latency_ms, operation_key, running_average, percentile,
}
use dapper_distributed_traci.Analysis.Latency.{latencies_of}

pub record ServiceSla (F : Type 0) : Type 0 where
  pub service_name : String
  pub operation_name : String
  pub avg_latency_ms : F
  pub p99_latency_ms : ℤ
  pub error_rate : F
  pub timeout_rate : F
  pub success_rate : F
  pub total_invocations : ℤ
  pub period : ℤ

module _ {F : Type 0} (floats : Floats F) where
  new_sla : Span → ServiceSla F
  new_sla span = record {
    service_name = span.service_name;
    operation_name = span.operation_name;
    avg_latency_ms = floats.of_int (pos 0);
    p99_latency_ms = pos 0;
    error_rate = floats.of_int (pos 0);
    timeout_rate = floats.of_int (pos 0);
    success_rate = floats.of_int (pos 0);
    total_invocations = pos 0;
    period = pos 86_400_000_000_000;
  }

  or_new_sla : Span → Option (ServiceSla F) → ServiceSla F
  unfolding new_sla
  or_new_sla span none = new_sla span
  or_new_sla span (some sla) = sla

  -- Only the rate of the span's own status changes. `before` is the count without the span.
  with_status : ℤ → Span → ServiceSla F → ServiceSla F
  with_status before span sla =
      let next : F → F = λ rate.
        running_average floats rate before (floats.of_int sla.total_invocations)
          (floats.of_int (pos 1)) in
      if eqb_ℤ span.status status_ok
      then record sla { success_rate = next sla.success_rate }
      else if eqb_ℤ span.status status_error
      then record sla { error_rate = next sla.error_rate }
      else if eqb_ℤ span.status status_timeout
      then record sla { timeout_rate = next sla.timeout_rate }
      else sla

  -- A span without times makes an entry, and changes nothing else.
  with_call : Option ℤ → Span → ServiceSla F → ServiceSla F
  unfolding with_status
  with_call none span sla = sla
  with_call (some latency) span sla =
      let before = sla.total_invocations in
      let count = next_int before in
      with_status before span (record sla {
        total_invocations = count;
        avg_latency_ms =
            running_average floats sla.avg_latency_ms before (floats.of_int count)
              (floats.of_int latency);
      })

  module _ (as_time : Timestamp → Time) where
    pub sla_spans : List Span → Table (ServiceSla F) → Table (ServiceSla F)
    unfolding with_call or_new_sla
    sla_spans [] slas = slas
    sla_spans (span ∷ rest) slas =
        let key = operation_key span.service_name span.operation_name in
        sla_spans rest (
          insert key (with_call (latency_ms as_time span) span (or_new_sla span (lookup key slas)))
            slas)

    pub sla_traces : List (Trace Span) → Table (ServiceSla F) → Table (ServiceSla F)
    unfolding sla_spans
    sla_traces [] slas = slas
    sla_traces (trace ∷ rest) slas = sla_traces rest (sla_spans trace.spans slas)

    -- The latencies of an operation in all traces.
    all_latencies : String → String → List (Trace Span) → List ℤ
    all_latencies service operation [] = []
    all_latencies service operation (trace ∷ rest) =
        latencies_of as_time service operation trace.spans ++ all_latencies service operation rest

    module _ (sort_slice : List ℤ → List ℤ) where
      with_p99 : ServiceSla F → List ℤ → Result (ServiceSla F)
      with_p99 sla [] = ok sla
      with_p99 sla (latency ∷ rest) = do
        p99 ← percentile floats (sort_slice (latency ∷ rest)) (pos 99)
        ok (record sla { p99_latency_ms = p99 })

      all_p99s : List (Trace Span) → Table (ServiceSla F) → Result (Table (ServiceSla F))
      unfolding with_p99 all_latencies
      all_p99s traces [] = ok []
      all_p99s traces ((key, sla) ∷ rest) = do
        filled ← with_p99 sla (all_latencies sla.service_name sla.operation_name traces)
        others ← all_p99s traces rest
        ok ((key, filled) ∷ others)

      -- A nil map reads as an empty one.
      pub calculate_service_slas : List (Trace Span) → Result (Table (ServiceSla F))
      unfolding all_p99s sla_traces
      calculate_service_slas traces = all_p99s traces (sla_traces traces [])
