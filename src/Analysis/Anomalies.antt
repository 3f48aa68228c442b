-- ===== src/Analysis/Anomalies.antt =====
-- `DetectAnomalies` of pkg/analysis.go. The texts that `fmt.Sprintf` makes of numbers are arguments,
-- as are `sort.Slice` and `AsTime`, which a nil pointer has too.
use dapper_distributed_traci.Prelude.{
  ℕ, Bool, ◌&&◌, String, Option, none, some, List, [], ◌∷◌, ◌++◌, length, leb, if◌then◌else◌,
}
use dapper_distributed_traci.Prelude.Int.{ℤ, pos, ltb_ℤ, eqb_ℤ, next_int}
use dapper_distributed_traci.Table.{Table, lookup, insert}
use dapper_distributed_traci.Time.{Time}
use dapper_distributed_traci.Wire.{Timestamp, Span, Trace, status_error, status_timeout}
use dapper_distributed_traci.Concurrent.{detect_concurrent_events}
use dapper_distributed_traci.Analysis.{Floats, latency_ms, operation_key}

pub data AnomalyType : Type 0 where
  high_latency error_anomaly timeout_anomaly concurrency_issue unusual_pattern : AnomalyType

pub record Anomaly : Type 0 where
  pub anomaly_type : AnomalyType
  pub service_name : String
  pub operation_name : String
  pub trace_id : String
  pub description : String
  pub severity : ℤ
  pub timestamp : Time

-- `fmt.Sprintf` with the numbers of a description.
pub record Texts (F : Type 0) : Type 0 where
  pub concurrent : ℕ → String
  pub latency : ℤ → F → String
  pub error_rate : F → String

-- The baselines: counts, sums of latencies and counts of errors, and then averages.
pub record Baseline (F : Type 0) : Type 0 where
  pub latencies : Table F
  pub errors : Table F
  pub counts : Table ℤ

abbrev pub count_or_0 : Option ℤ → ℤ
count_or_0 none = pos 0
count_or_0 (some count) = count

module _ {F : Type 0} (floats : Floats F) where
  abbrev pub float_or_0 : Option F → F
  float_or_0 none = floats.of_int (pos 0)
  float_or_0 (some value) = value

  -- `m[key] += value`
  add_float : String → F → Table F → Table F
  add_float key value m = insert key (floats.plus (float_or_0 (lookup key m)) value) m

  baseline_call : Option ℤ → Span → Baseline F → Baseline F
  unfolding add_float
  baseline_call none span b = b
  baseline_call (some latency) span b =
      let key = operation_key span.service_name span.operation_name in
      record {
        latencies = add_float key (floats.of_int latency) b.latencies;
        errors =
            if eqb_ℤ span.status status_error
            then add_float key (floats.of_int (pos 1)) b.errors
            else b.errors;
        counts = insert key (next_int (count_or_0 (lookup key b.counts))) b.counts;
      }

  -- `m[key] = total / float64(count)`, where the count is positive.
  averages : Table ℤ → Table F → Table F
  averages counts [] = []
  averages counts ((key, total) ∷ rest) =
      let count = count_or_0 (lookup key counts) in
      let others = averages counts rest in
      if ltb_ℤ (pos 0) count
      then (key, floats.over total (floats.of_int count)) ∷ others
      else (key, total) ∷ others

  module _ (as_time : Option Timestamp → Time) (texts : Texts F) where
    baseline_spans : List Span → Baseline F → Baseline F
    unfolding baseline_call
    baseline_spans [] b = b
    baseline_spans (span ∷ rest) b =
        baseline_spans rest (baseline_call (latency_ms (λ t. as_time (some t)) span) span b)

    pub baseline_traces : List (Trace Span) → Baseline F → Baseline F
    unfolding baseline_spans
    baseline_traces [] b = b
    baseline_traces (trace ∷ rest) b = baseline_traces rest (baseline_spans trace.spans b)

    with_averages : Baseline F → Baseline F
    unfolding averages
    with_averages b = record b {
      latencies = averages b.counts b.latencies;
      errors = averages b.counts b.errors;
    }

    -- Groups of three spans or more; the first stands for the group.
    group_anomalies : String → List (List Span) → List Anomaly
    group_anomalies trace_id [] = []
    group_anomalies trace_id ([] ∷ rest) = group_anomalies trace_id rest
    group_anomalies trace_id ((first ∷ others) ∷ rest) =
        let later = group_anomalies trace_id rest in
        if leb 3 (length (first ∷ others))
        then record {
          anomaly_type = concurrency_issue;
          service_name = first.service_name;
          operation_name = "";
          trace_id = trace_id;
          description = texts.concurrent (length (first ∷ others));
          severity = pos 7;
          timestamp = as_time first.start_time;
        }
          ∷ later
        else later

    span_anomaly : AnomalyType → String → ℤ → String → Span → Anomaly
    span_anomaly anomaly_type description severity trace_id span = record {
      anomaly_type = anomaly_type;
      service_name = span.service_name;
      operation_name = span.operation_name;
      trace_id = trace_id;
      description = description;
      severity = severity;
      timestamp = as_time span.start_time;
    }

    -- Three times the baseline or more, and ten times for the larger severity.
    latency_anomaly : F → ℤ → String → Span → List Anomaly
    unfolding span_anomaly
    latency_anomaly baseline latency trace_id span =
        let value = floats.of_int latency in
        if floats.less (floats.of_int (pos 0)) baseline
          && floats.less (floats.times baseline (floats.of_int (pos 3))) value
        then span_anomaly high_latency (texts.latency latency (floats.over value baseline))
            (if floats.less (floats.times baseline (floats.of_int (pos 10))) value
              then pos 9
              else pos 5)
            trace_id span
          ∷ []
        else []

    error_anomalies : F → String → Span → List Anomaly
    unfolding span_anomaly
    error_anomalies rate trace_id span =
        if eqb_ℤ span.status status_error && floats.less rate floats.tenth
        then span_anomaly error_anomaly
            (texts.error_rate (floats.times rate (floats.of_int (pos 100)))) (pos 8) trace_id span
          ∷ []
        else []

    timeout_anomalies : String → Span → List Anomaly
    unfolding span_anomaly
    timeout_anomalies trace_id span =
        if eqb_ℤ span.status status_timeout
        then span_anomaly timeout_anomaly "Operation timed out" (pos 7) trace_id span ∷ []
        else []

    anomalies_of : Baseline F → String → Option ℤ → Span → List Anomaly
    unfolding latency_anomaly error_anomalies timeout_anomalies
    anomalies_of b trace_id none span = []
    anomalies_of b trace_id (some latency) span =
        let key = operation_key span.service_name span.operation_name in
        latency_anomaly (float_or_0 (lookup key b.latencies)) latency trace_id span
        ++ (error_anomalies (float_or_0 (lookup key b.errors)) trace_id span
            ++ timeout_anomalies trace_id span)

    span_anomalies : Baseline F → String → List Span → List Anomaly
    unfolding anomalies_of
    span_anomalies b trace_id [] = []
    span_anomalies b trace_id (span ∷ rest) =
        anomalies_of b trace_id (latency_ms (λ t. as_time (some t)) span) span
        ++ span_anomalies b trace_id rest

    trace_anomalies : Baseline F → List (Trace Span) → List Anomaly
    unfolding span_anomalies group_anomalies
    trace_anomalies b [] = []
    trace_anomalies b (trace ∷ rest) =
        group_anomalies trace.trace_id (detect_concurrent_events trace.spans)
        ++ (span_anomalies b trace.trace_id trace.spans ++ trace_anomalies b rest)

    more_severe : Anomaly → Anomaly → Bool
    more_severe a b = ltb_ℤ b.severity a.severity

    pub detect_anomalies :
        ((Anomaly → Anomaly → Bool) → List Anomaly → List Anomaly)
        → List (Trace Span)
        → List Anomaly
    unfolding baseline_traces with_averages trace_anomalies more_severe
    detect_anomalies sort_slice [] = []
    detect_anomalies sort_slice (trace ∷ rest) =
        let b =
          baseline_traces (trace ∷ rest) (record { latencies = []; errors = []; counts = [] }) in
        sort_slice more_severe (trace_anomalies (with_averages b) (trace ∷ rest))
