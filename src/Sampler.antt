-- ===== src/Sampler.antt =====
-- The samplers of pkg/tracer.go. `drawn` is whether `rand.Float64()` is below the rate.
pub mod Limit
mod Tests
use dapper_distributed_traci.Prelude.{ℕ, String, Bool, true, false, if◌then◌else◌, not}
use dapper_distributed_traci.Prelude.Int.{ℤ, pos, ltb_ℤ, eqb_ℤ, next_int}
use dapper_distributed_traci.Table.{Table, is_set}

pub probability_sample : Bool → Bool
probability_sample drawn = drawn

pub record RateLimitingSampler : Type 0 where
  pub traces_per_second : ℤ
  pub current_second : ℤ
  pub current_count : ℤ

pub new_rate_limiting_sampler : ℤ → ℤ → RateLimitingSampler
new_rate_limiting_sampler now traces_per_second = record {
  traces_per_second = traces_per_second;
  current_second = now;
  current_count = pos 0;
}

-- A new second starts a new count.
renew : ℤ → RateLimitingSampler → RateLimitingSampler
renew now s =
    if not (eqb_ℤ now s.current_second)
    then record s { current_second = now; current_count = pos 0 }
    else s

grant : RateLimitingSampler → RateLimitingSampler × Bool
grant s =
    if ltb_ℤ s.current_count s.traces_per_second
    then (record s { current_count = next_int s.current_count }, true)
    else (s, false)

-- `now` is `time.Now().Unix()`.
pub rate_limited_sample : ℤ → RateLimitingSampler → RateLimitingSampler × Bool
unfolding renew grant
rate_limited_sample now s = grant (renew now s)

pub priority_sample : Table Bool → Bool → String → Bool
priority_sample high_priority_ops drawn operation =
    if is_set operation high_priority_ops then true else drawn
