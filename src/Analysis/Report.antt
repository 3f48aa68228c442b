-- ===== src/Analysis/Report.antt =====
-- `GeneratePerformanceReport` of pkg/analysis.go: all analyses over a list of traces. `order` gives,
-- for each trace, the order of iteration in `OrderSpans`; the three sorts are those of `sort`.
use dapper_distributed_traci.Prelude.{
  Bool, ◌||◌, String, Option, none, some, List, [], ◌∷◌, ◌++◌, any, length, if◌then◌else◌, Result,
  ok, err, panic, ◌>>=◌,
}
use dapper_distributed_traci.Prelude.Int.{ℤ, pos, ltb_ℤ, eqb_ℤ, next_int, add_int64, sub_int64}
use dapper_distributed_traci.Table.{Table, lookup, insert}
use dapper_distributed_traci.Time.{Time}
use dapper_distributed_traci.Wire.{Timestamp, Span, Trace, status_error, status_timeout}
use dapper_distributed_traci.Analysis.{Floats, between, percentile}
use dapper_distributed_traci.Analysis.Latency.{LatencyInfo, analyze_latency}
use dapper_distributed_traci.Analysis.Bottlenecks.{Bottleneck, detect_bottlenecks}
use dapper_distributed_traci.Analysis.Dependencies.{ServiceGraph, generate_service_dependency_graph}
use dapper_distributed_traci.Analysis.Anomalies.{Anomaly, Texts, detect_anomalies}
use dapper_distributed_traci.Analysis.Sla.{ServiceSla, calculate_service_slas}

pub record PerformanceReport (F : Type 0) : Type 0 where
  pub service_latencies : Table (LatencyInfo F)
  pub bottlenecks : List (Bottleneck F)
  pub service_graph : Option (ServiceGraph F)
  pub anomalies : List Anomaly
  pub service_slas : Table (ServiceSla F)
  pub trace_count : ℤ
  pub error_trace_count : ℤ
  pub slow_trace_count : ℤ
  pub avg_trace_latency_ms : F
  pub p95_trace_latency_ms : ℤ
  pub period : ℤ

-- What the loop over the traces has so far.
pub record Progress (F : Type 0) : Type 0 where
  pub report : PerformanceReport F
  pub trace_latencies : List ℤ
  pub total_latency : ℤ

-- A step after a result that may not have come, or be a panic.
abbrev and_then {ℓ κ} :
    {A : Type ℓ} {B : Type κ} → Option (Result A) → (A → Option (Result B)) → Option (Result B)
and_then none f = none
and_then (some (ok a)) f = f a
and_then (some (err e)) f = some (err e)
and_then (some panic) f = some panic

larger : ℤ → ℤ → ℤ
larger a b = if ltb_ℤ b a then a else b

module _ {F : Type 0} (floats : Floats F) where
  empty_report : ℤ → PerformanceReport F
  empty_report trace_count = record {
    service_latencies = [];
    bottlenecks = [];
    service_graph = none;
    anomalies = [];
    service_slas = [];
    trace_count = trace_count;
    error_trace_count = pos 0;
    slow_trace_count = pos 0;
    avg_trace_latency_ms = floats.of_int (pos 0);
    p95_trace_latency_ms = pos 0;
    period = pos 86_400_000_000_000;
  }

  -- `(a*float64(total-count) + b*float64(count)) / float64(total)`
  weighted : F → F → ℤ → ℤ → F
  weighted a b total count =
      floats.over
        (floats.plus (floats.times a (floats.of_int (sub_int64 total count)))
          (floats.times b (floats.of_int count)))
        (floats.of_int total)

  merge_info : LatencyInfo F → LatencyInfo F → LatencyInfo F
  unfolding weighted larger
  merge_info existing info =
      let total = add_int64 existing.total_invocations info.total_invocations in
      record existing {
        total_invocations = total;
        avg_latency_ms =
            weighted existing.avg_latency_ms info.avg_latency_ms total info.total_invocations;
        min_latency_ms =
            if ltb_ℤ info.min_latency_ms existing.min_latency_ms
            then info.min_latency_ms
            else existing.min_latency_ms;
        max_latency_ms = larger info.max_latency_ms existing.max_latency_ms;
        p90_latency_ms = larger info.p90_latency_ms existing.p90_latency_ms;
        p95_latency_ms = larger info.p95_latency_ms existing.p95_latency_ms;
        p99_latency_ms = larger info.p99_latency_ms existing.p99_latency_ms;
        error_rate = weighted existing.error_rate info.error_rate total info.total_invocations;
      }

  merge_existing : Option (LatencyInfo F) → LatencyInfo F → LatencyInfo F
  unfolding merge_info
  merge_existing none info = info
  merge_existing (some existing) info = merge_info existing info

  merge_infos : Table (LatencyInfo F) → Table (LatencyInfo F) → Table (LatencyInfo F)
  unfolding merge_existing
  merge_infos [] infos = infos
  merge_infos ((key, info) ∷ rest) infos =
      merge_infos rest (insert key (merge_existing (lookup key infos) info) infos)

  has_error : Trace Span → Bool
  has_error trace =
      any (λ span. eqb_ℤ span.status status_error || eqb_ℤ span.status status_timeout) trace.spans

  first_bottleneck : List (Bottleneck F) → List (Bottleneck F)
  first_bottleneck [] = []
  first_bottleneck (worst ∷ rest) = worst ∷ []

  count_slow : F → List ℤ → ℤ → ℤ
  count_slow average [] count = count
  count_slow average (latency ∷ rest) count = count_slow average rest (
      if floats.less (floats.times average (floats.of_int (pos 2))) (floats.of_int latency)
      then next_int count
      else count)

  module _ (as_time : Option Timestamp → Time) (texts : Texts F) (order : Trace Span → List String)
      (sort_latencies : List ℤ → List ℤ) (sort_strings : List String → List String)
      (sort_bottlenecks : (Bottleneck F → Bottleneck F → Bool)
        → List (Bottleneck F)
        → List (Bottleneck F))
      (sort_anomalies : (Anomaly → Anomaly → Bool) → List Anomaly → List Anomaly) where
    abbrev time_of : Timestamp → Time
    time_of t = as_time (some t)

    with_trace :
        Trace Span → ℤ → Table (LatencyInfo F) → List (Bottleneck F) → Progress F → Progress F
    unfolding merge_infos has_error first_bottleneck
    with_trace trace latency infos found p = record {
      report = record (p.report) {
        error_trace_count =
            if has_error trace
            then next_int p.report.error_trace_count
            else p.report.error_trace_count;
        service_latencies = merge_infos infos p.report.service_latencies;
        bottlenecks = p.report.bottlenecks ++ first_bottleneck found;
      };
      trace_latencies = p.trace_latencies ++ latency ∷ [];
      total_latency = add_int64 p.total_latency latency;
    }

    report_trace : Trace Span → Option ℤ → Progress F → Option (Result (Progress F))
    unfolding with_trace
    report_trace trace none p = some (ok p)
    report_trace trace (some latency) p =
        and_then (some (analyze_latency floats time_of sort_latencies (some trace))) (λ infos.
          and_then (detect_bottlenecks floats time_of sort_bottlenecks (order trace) (some trace))
            (λ found. some (ok (with_trace trace latency infos found p))))

    report_traces : List (Trace Span) → Progress F → Option (Result (Progress F))
    unfolding report_trace
    report_traces [] p = some (ok p)
    report_traces (trace ∷ rest) p =
        and_then (report_trace trace (between time_of trace.start_time trace.end_time) p)
          (report_traces rest)

    -- The figures over the traces with times, where there are any.
    with_totals : List ℤ → ℤ → PerformanceReport F → Result (PerformanceReport F)
    unfolding count_slow
    with_totals [] total report = ok report
    with_totals (latency ∷ rest) total report = do
      p95 ← percentile floats (sort_latencies (latency ∷ rest)) (pos 95)
      ok (record report {
        avg_trace_latency_ms =
            floats.over (floats.of_int total) (floats.of_int (pos (length (latency ∷ rest))));
        p95_trace_latency_ms = p95;
        slow_trace_count =
            count_slow
              (floats.over (floats.of_int total) (floats.of_int (pos (length (latency ∷ rest)))))
              (sort_latencies (latency ∷ rest)) report.slow_trace_count;
      })

    with_analyses : List (Trace Span) → Progress F → Result (PerformanceReport F)
    unfolding with_totals
    with_analyses traces p = do
      report ← with_totals p.trace_latencies p.total_latency p.report
      slas ← calculate_service_slas floats time_of sort_latencies traces
      ok (record report {
        service_graph = generate_service_dependency_graph floats time_of sort_strings traces;
        anomalies = detect_anomalies floats as_time texts sort_anomalies traces;
        service_slas = slas;
      })

    pub generate_performance_report : List (Trace Span) → Option (Result (PerformanceReport F))
    unfolding empty_report report_traces with_analyses
    generate_performance_report [] = some (ok (empty_report (pos 0)))
    generate_performance_report (trace ∷ rest) =
        and_then
          (report_traces (trace ∷ rest) (record {
            report = empty_report (pos (length (trace ∷ rest)));
            trace_latencies = [];
            total_latency = pos 0;
          }))
          (λ p. some (with_analyses (trace ∷ rest) p))
