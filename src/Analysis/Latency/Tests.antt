-- ===== src/Analysis/Latency/Tests.antt =====
-- The figures of a trace with a span that ends before it starts, with whole numbers for `float64`.
use dapper_distributed_traci.Prelude.{
  ℕ, ◌*◌, ◌/◌, String, ◌≡◌, refl, Option, none, some, [], ◌∷◌, ok,
}
use dapper_distributed_traci.Prelude.Int.{ℤ, pos}
use dapper_distributed_traci.Table.{Table, lookup, insert}
use dapper_distributed_traci.Conversion.{milliseconds}
use dapper_distributed_traci.Analysis.Examples.{whole, as_time, call, trace_of}
use dapper_distributed_traci.Analysis.Latency.{
  LatencyInfo, analyze_latency, group_calls, record_call, measure, or_new_info, new_info,
}
use dapper_distributed_traci.Analysis.Latency.Measuring.{calls_of}
use dapper_distributed_traci.Analysis.Latency.Totals.{HasFigures, analyze_latency_lem}

analyze_latency_lem_example :
    (infos : Table (LatencyInfo ℕ)) × (analyze_latency whole as_time
        (λ values. values)
        (some (trace_of (call "web" "a" "" 1 4 ∷ call "web" "b" "" 2 4 ∷ [])))
      ≡ ok infos)
    × ((key : String)
        → HasFigures whole
            (λ p n. (p / 100 * n, refl))
            as_time
            (λ values. values)
            (calls_of as_time key (call "web" "a" "" 1 4 ∷ call "web" "b" "" 2 4 ∷ []))
            (lookup key infos))
analyze_latency_lem_example =
    analyze_latency_lem whole (λ p n. (p / 100 * n, refl)) as_time (λ values. values)
      (trace_of (call "web" "a" "" 1 4 ∷ call "web" "b" "" 2 4 ∷ []))

abbrev max_of : Option (LatencyInfo ℕ) → ℤ
max_of none = pos 0
max_of (some info) = info.max_latency_ms

-- The one latency is below 0, and the largest that is kept is 0.
negative_latency :
    max_of (lookup "web:o" (group_calls whole as_time (call "web" "a" "" 4 1 ∷ []) [])) ≡ pos 0
unfolding group_calls record_call measure or_new_info new_info lookup insert milliseconds
negative_latency = refl
