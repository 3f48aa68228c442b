-- ===== src/Analysis/Dependencies/Counting.antt =====
-- The calls that the graph of services counts, over all traces.
use dapper_distributed_traci.Prelude.{
  ℕ, suc, ◌+◌, Bool, true, false, ◌&&◌, String, ◌==◌, ◌≡◌, refl, sym, Option, List, [], ◌∷◌, inl,
  inr, arith, Bool-cases, if◌then◌else◌,
}
use dapper_distributed_traci.Prelude.Int.{eqb_ℤ}
use dapper_distributed_traci.Table.{lookup}
use dapper_distributed_traci.Time.{Time}
use dapper_distributed_traci.Wire.{Timestamp, Span, Trace, status_error}
use dapper_distributed_traci.Analysis.{Floats, latency_ms}
use dapper_distributed_traci.Analysis.Dependencies.{
  ServiceDependency, service_of, DepMap, dependency_at, record_dependency, record_span,
  record_spans, record_traces,
}
use dapper_distributed_traci.Analysis.Dependencies.Calls.{
  is_call, is_failed_call, count_if, calls_in, failed_calls_in, Counts, record_dependency-Counts,
}

module _ {F : Type 0} (floats : Floats F) where
  add_counted : (b : Bool) (n k : ℕ) → (if b then n + 1 else n) + k ≡ n + (if b then suc k else k)
  add_counted b n k = ground arith

  -- The same counts, written otherwise.
  recount :
      (f t o : String) (n n' e e' : ℕ) (d : Option (ServiceDependency F))
      → n ≡ n'
      → e ≡ e'
      → Counts floats f t o n e d
      → Counts floats f t o n' e' d
  recount f t o n n' e e' d p q c = rw (sym p, sym q) c

  if_both :
      (a b : Bool) (x y : ℕ) → (if a then (if b then x else y) else y) ≡ (if a && b then x else y)
  if_both true b x y = refl
  if_both false b x y = refl

  module _ (as_time : Timestamp → Time) (f t o : String) (nonempty : (f == "") ≡ false)
      (distinct : (f == t) ≡ false) where
    record_span-Counts :
        (spans : List Span) (span : Span) (n e : ℕ) (deps : DepMap floats)
        → Counts floats f t o n e (dependency_at floats f t o deps)
        → Counts floats f t o
            (if is_call f t o spans span then n + 1 else n)
            (if is_failed_call f t o spans span then e + 1 else e)
            (dependency_at floats f t o (record_span floats as_time spans span deps))
    unfolding record_span
    record_span-Counts spans span n e deps counts = elim (Bool-cases (span.parent_span_id == "")) [
      | inl root ↦ rw root counts
      | inr child ↦
          let from = service_of span.parent_span_id spans in
          let after =
            record_dependency-Counts floats f t o from (latency_ms as_time span) span n e deps
              nonempty distinct counts in
          let call = from == f && span.service_name == t && span.operation_name == o in
          let failed = eqb_ℤ span.status status_error in
          rw child (
            recount f t o (if call then n + 1 else n) (if call then n + 1 else n)
              (if call then (if failed then e + 1 else e) else e)
              (if call && failed then e + 1 else e)
              (dependency_at floats f t o
                (record_dependency floats (latency_ms as_time span) from span deps))
              refl (if_both call failed (e + 1) e) after)
    ]

    record_spans-Counts :
        (spans list : List Span) (n e : ℕ) (deps : DepMap floats)
        → Counts floats f t o n e (dependency_at floats f t o deps)
        → Counts floats f t o
            (n + count_if (is_call f t o spans) list)
            (e + count_if (is_failed_call f t o spans) list)
            (dependency_at floats f t o (record_spans floats as_time spans list deps))
    unfolding record_spans
    record_spans-Counts spans [] n e deps counts =
        recount f t o n (n + 0) e (e + 0) _ (omega arith) (omega arith) counts
    record_spans-Counts spans (span ∷ rest) n e deps counts =
        let n' = if is_call f t o spans span then n + 1 else n in
        let e' = if is_failed_call f t o spans span then e + 1 else e in
        let deps' = record_span floats as_time spans span deps in
        recount f t o (n' + count_if (is_call f t o spans) rest) _
          (e' + count_if (is_failed_call f t o spans) rest) _
          (dependency_at floats f t o (record_spans floats as_time spans rest deps'))
          (add_counted (is_call f t o spans span) n (count_if (is_call f t o spans) rest))
          (add_counted (is_failed_call f t o spans span) e
            (count_if (is_failed_call f t o spans) rest))
          (record_spans-Counts spans rest n' e' deps'
            (record_span-Counts spans span n e deps counts))

    record_traces-Counts :
        (traces : List (Trace Span)) (n e : ℕ) (deps : DepMap floats)
        → Counts floats f t o n e (dependency_at floats f t o deps)
        → Counts floats f t o
            (n + calls_in f t o traces)
            (e + failed_calls_in f t o traces)
            (dependency_at floats f t o (record_traces floats as_time traces deps))
    unfolding record_traces
    record_traces-Counts [] n e deps counts =
        recount f t o n (n + 0) e (e + 0) _ (omega arith) (omega arith) counts
    record_traces-Counts (trace ∷ rest) n e deps counts =
        let spans = trace.spans in
        let deps' = record_spans floats as_time spans spans deps in
        let n' = n + count_if (is_call f t o spans) spans in
        let e' = e + count_if (is_failed_call f t o spans) spans in
        recount f t o (n' + calls_in f t o rest) _ (e' + failed_calls_in f t o rest) _
          (dependency_at floats f t o (record_traces floats as_time rest deps')) (omega arith)
          (omega arith)
          (record_traces-Counts rest n' e' deps' (record_spans-Counts spans spans n e deps counts))

    -- For two services of different names, of which the first has one: the dependency on an
    -- operation that is built from a list of traces is there exactly when there is such a call, has
    -- the names of the two and of the operation, and counts the calls and those that failed, if an
    -- `int` can; the caller is the service of the first span with the id of the parent.
    pub record_traces_lem :
        (traces : List (Trace Span))
        → Counts floats f t o
            (calls_in f t o traces)
            (failed_calls_in f t o traces)
            (dependency_at floats f t o (record_traces floats as_time traces []))
    unfolding lookup
    record_traces_lem traces =
        recount f t o (0 + calls_in f t o traces) _ (0 + failed_calls_in f t o traces) _
          (dependency_at floats f t o (record_traces floats as_time traces [])) (omega arith)
          (omega arith) (record_traces-Counts traces 0 0 [] (refl, refl))
