-- ===== src/Sampler/Tests.antt =====
-- A sampler of two traces per second.
use dapper_distributed_traci.Prelude.{◌≡◌, refl, true, false, [], ◌∷◌, arith}
use dapper_distributed_traci.Prelude.Int.{pos}
use dapper_distributed_traci.Table.{lookup}
use dapper_distributed_traci.Sampler.{
  RateLimitingSampler, new_rate_limiting_sampler, priority_sample,
}
use dapper_distributed_traci.Sampler.Limit.{sampled, sampled_in_second}

abbrev two_per_second : RateLimitingSampler
two_per_second = record {
  traces_per_second = pos 2;
  current_second = pos 100;
  current_count = pos 1;
}

fresh :
    new_rate_limiting_sampler (pos 100) (pos 2) ≡ record two_per_second { current_count = pos 0 }
unfolding new_rate_limiting_sampler
fresh = refl

kept_by_priority : priority_sample (("pay", true) ∷ []) false "pay" ≡ true
unfolding priority_sample lookup
kept_by_priority = refl

sampled_in_second_example : sampled (pos 101) 5 two_per_second ≡ 2
sampled_in_second_example = sampled_in_second (pos 101) 5 2 two_per_second refl (omega arith) refl
