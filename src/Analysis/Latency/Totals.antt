-- ===== src/Analysis/Latency/Totals.antt =====
-- That `AnalyzeLatency` returns, and what its figures are.
use dapper_distributed_traci.Prelude.{
  ℕ, zero, suc, ◌-◌, ◌≤◌, ◌<◌, String, ◌==◌, ◌≡◌, refl, ap, ◌∙◌, Option, none, some, List, [], ◌∷◌,
  length, ◌⊎◌, inl, inr, arith, Bool-cases, if◌then◌else◌, ok,
}
use dapper_distributed_traci.Prelude.Int.{ℤ, pos, leb_ℤ, ◌≤ℤ◌, max_int}
use dapper_distributed_traci.Table.{Table, lookup}
use dapper_distributed_traci.Time.{Time}
use dapper_distributed_traci.Wire.{Timestamp, Span, Trace}
use dapper_distributed_traci.Analysis.{Floats, percentile, index_of, value_at}
use dapper_distributed_traci.Analysis.Latency.{
  LatencyInfo, new_info, or_new_info, group_calls, with_percentiles, all_percentiles,
  analyze_latency, latencies_of,
}
use dapper_distributed_traci.Analysis.Latency.Measuring.{
  calls_of, IsOne, measure_all, group_calls-measure_all, measure_all-IsMeasured,
}

value_at_ends : (i : ℕ) (values : List ℤ) → i < length values → (v : ℤ) × (value_at i values ≡ ok v)
value_at_ends i [] h = absurd (ground (arith, h))
value_at_ends zero (value ∷ rest) h = (value, refl)
value_at_ends (suc i) (value ∷ rest) h = value_at_ends i rest (omega (arith, h))

index_cut :
    (n k : ℕ) (i : ℤ)
    → i ≡ pos k
    → (j : ℕ) × ((if leb_ℤ (pos (suc n)) i then pos (suc n - 1) else i) ≡ pos j) × (j < suc n)
index_cut n k i e = elim (Bool-cases (leb_ℤ (pos (suc n)) (pos k))) [
  | inl late ↦ (n, (rw (e, late) (ap (λ m. pos m) (omega arith))), omega arith)
  | inr early ↦ (k, (rw (e, early) refl), ground (arith, early))
]

-- What `float64` gives for a part of a length: a number that is not negative.
abbrev pub IsPositive : (F : Type 0) → Floats F → Type 0
IsPositive F floats =
    (p n : ℕ)
    → (k : ℕ) × (floats.truncate (
          floats.times (floats.over (floats.of_int (pos p)) (floats.of_int (pos 100)))
            (floats.of_int (pos n)))
        ≡ pos k)

module _ {F : Type 0} (floats : Floats F) (positive : IsPositive F floats)
    (as_time : Timestamp → Time) (sort_slice : List ℤ → List ℤ) where
  percentile_ends : (values : List ℤ) (p : ℕ) → (v : ℤ) × (percentile floats values (pos p) ≡ ok v)
  unfolding percentile
  percentile_ends [] p = (pos 0, refl)
  percentile_ends (value ∷ rest) p =
      let (k, at) = positive p (length (value ∷ rest)) in
      let (j, cut, small) = index_cut (length rest) k _ at in
      let (v, there) = value_at_ends j (value ∷ rest) small in
      (v, ap (λ i. index_of i (value ∷ rest)) cut ∙ there)

  -- The percentiles leave the other figures as they are.
  abbrev AreSame : Option (LatencyInfo F) → Option (LatencyInfo F) → Type 0
  AreSame none none = Unit
  AreSame (some a) (some b) =
      (b.min_latency_ms ≡ a.min_latency_ms)
      × (b.max_latency_ms ≡ a.max_latency_ms)
      × (b.total_invocations ≡ a.total_invocations)
  AreSame _ _ = ⊥

  with_percentiles_ends :
      (spans : List Span) (info : LatencyInfo F)
      → (filled : LatencyInfo F) × (with_percentiles floats as_time sort_slice spans info
          ≡ ok filled)
        × AreSame (some info) (some filled)
  unfolding with_percentiles
  with_percentiles_ends spans info =
      let values = sort_slice (latencies_of as_time info.service_name info.operation_name spans) in
      let (p90, e90) = percentile_ends values 90 in
      let (p95, e95) = percentile_ends values 95 in
      let (p99, e99) = percentile_ends values 99 in
      (
        record info { p90_latency_ms = p90; p95_latency_ms = p95; p99_latency_ms = p99 },
        rw (e90, e95, e99) refl,
        (refl, refl, refl),
      )

  all_percentiles_end :
      (spans : List Span) (infos : Table (LatencyInfo F))
      → (filled : Table (LatencyInfo F)) × (all_percentiles floats as_time sort_slice spans infos
          ≡ ok filled)
        × ((key : String) → AreSame (lookup key infos) (lookup key filled))
  unfolding all_percentiles lookup
  all_percentiles_end spans [] = ([], refl, λ key. tt)
  all_percentiles_end spans ((other, info) ∷ rest) =
      let (new, at, same) = with_percentiles_ends spans info in
      let (others, rest_at, all_same) = all_percentiles_end spans rest in
      (
        (other, new) ∷ others,
        rw (at, rest_at) refl,
        λ key. elim (Bool-cases (other == key)) [
          | inl here ↦ rw here same
          | inr later ↦ rw later (all_same key)
        ],
      )

  -- The figures of the calls of an operation, where there are any.
  abbrev pub HasFigures : List (ℤ × Span) → Option (LatencyInfo F) → Type 0
  HasFigures calls none = calls ≡ []
  HasFigures calls (some info) =
      ((l : ℤ) → IsOne l calls → (info.min_latency_ms ≤ℤ l) × (l ≤ℤ info.max_latency_ms))
      × ((info.min_latency_ms ≡ pos max_int) ⊎ IsOne info.min_latency_ms calls)
      × ((info.max_latency_ms ≡ pos 0) ⊎ IsOne info.max_latency_ms calls)
      × (length calls ≤ max_int → info.total_invocations ≡ pos (length calls))

  figures_new : (calls : List (ℤ × Span)) → HasFigures calls (measure_all floats calls none)
  unfolding or_new_info new_info
  figures_new [] = refl
  figures_new ((latency, span) ∷ rest) =
      let (last, at, (_, _, each, least, most, count)) =
        measure_all-IsMeasured floats ((latency, span) ∷ rest) (new_info floats span) in
      rw at (
        each,
        least,
        most,
        λ fits. count 0 refl (omega (arith, fits)) ∙ ap (λ n. pos n) (omega arith),
      )

  figures_kept :
      (calls : List (ℤ × Span)) (o filled : Option (LatencyInfo F))
      → AreSame o filled
      → HasFigures calls o
      → HasFigures calls filled
  figures_kept calls none none same figures = figures
  figures_kept calls none (some b) same figures = absurd same
  figures_kept calls (some a) none same figures = absurd same
  figures_kept calls (some a) (some b) (min, max, total) figures = rw (min, max, total) figures

  -- Where `float64` gives no negative index, AnalyzeLatency of a trace returns. The entry of a key
  -- is missing only where no timed span has the key, and else its least and largest latency bound
  -- those of all these spans; the least is one of them or the largest `int64`, the largest is one of
  -- them or 0, and if an `int` can count the spans, the entry counts them.
  pub analyze_latency_lem :
      (trace : Trace Span)
      → (infos : Table (LatencyInfo F)) × (analyze_latency floats as_time sort_slice (some trace)
          ≡ ok infos)
        × ((key : String) → HasFigures (calls_of as_time key trace.spans) (lookup key infos))
  unfolding analyze_latency lookup
  analyze_latency_lem trace =
      let groups = group_calls floats as_time trace.spans [] in
      let (filled, at, same) = all_percentiles_end trace.spans groups in
      (
        filled,
        at,
        λ key.
            let calls = calls_of as_time key trace.spans in
            let figures : HasFigures calls (lookup key groups) =
              rw (group_calls-measure_all floats as_time key trace.spans []) (figures_new calls) in
            figures_kept calls (lookup key groups) (lookup key filled) (same key) figures,
      )
