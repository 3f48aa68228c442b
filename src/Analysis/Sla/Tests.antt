-- ===== src/Analysis/Sla/Tests.antt =====
-- The rates of an operation with a call that succeeds and one that fails.
use dapper_distributed_traci.Prelude.{ℕ, ◌≡◌, refl, Option, none, some, [], ◌∷◌}
use dapper_distributed_traci.Table.{lookup, insert}
use dapper_distributed_traci.Wire.{status_error}
use dapper_distributed_traci.Conversion.{milliseconds}
use dapper_distributed_traci.Analysis.Examples.{whole, as_time, call}
use dapper_distributed_traci.Analysis.Sla.{
  ServiceSla, sla_spans, with_call, or_new_sla, new_sla, with_status,
}

abbrev success_of : Option (ServiceSla ℕ) → ℕ
success_of none = 0
success_of (some sla) = sla.success_rate

-- The second call leaves the rate of the first as it was.
success_kept :
    success_of (
      lookup "web:o" (
        sla_spans whole as_time
          (call "web" "a" "" 0 1 ∷ record (call "web" "b" "" 0 1) { status = status_error } ∷ [])
          []))
    ≡ 1
unfolding sla_spans with_call or_new_sla new_sla with_status lookup insert milliseconds
success_kept = refl
