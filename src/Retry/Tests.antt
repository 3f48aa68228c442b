-- ===== src/Retry/Tests.antt =====
-- A function that fails twice and then succeeds.
use dapper_distributed_traci.Prelude.{
  ℕ, zero, suc, ◌≡◌, refl, Bool, false, Option, none, some, [], ◌∷◌, Error, unavailable, All,
  length,
}
use dapper_distributed_traci.Prelude.Int.{ℤ, pos, ◌≤ℤ◌, ◌+ℤ◌}
use dapper_distributed_traci.Retry.{
  retry_with_exponential_backoff, new_exponential_backoff, retry_loop, next_backoff,
}
use dapper_distributed_traci.Retry.Attempts.{retry_lem}

abbrev third_time : ℕ → Option Error
third_time zero = some unavailable
third_time (suc zero) = some unavailable
third_time (suc (suc n)) = none

abbrev twice : ℤ → ℤ
twice w = w +ℤ w

abbrev never : ℕ → Bool
never k = false

three_attempts :
    retry_with_exponential_backoff twice third_time never never (pos 5)
    ≡ (none, pos 100_000_000 ∷ pos 200_000_000 ∷ [])
unfolding retry_with_exponential_backoff new_exponential_backoff retry_loop next_backoff ◌+ℤ◌
three_attempts = refl

retry_lem_example :
    let (error, waits) = retry_with_exponential_backoff twice third_time never never (pos 5) in
    (error ≡ none) × (length waits ≡ 2) × All (λ w. w ≤ℤ pos 10_000_000_000) waits
retry_lem_example = retry_lem twice third_time never never 5 (λ k. refl) (λ k. refl)
