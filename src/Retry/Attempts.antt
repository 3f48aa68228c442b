-- ===== src/Retry/Attempts.antt =====
-- How often the function is tried, and how long the waits are.
use dapper_distributed_traci.Prelude.{
  ℕ, zero, suc, ◌+◌, ◌≡◌, refl, ap, Bool, true, false, Option, none, some, arith, if◌then◌else◌,
  Error, max_attempts, All, length, inl, inr, Option-cases,
}
use dapper_distributed_traci.Prelude.Int.{ℤ, pos, ◌≤ℤ◌}
use dapper_distributed_traci.Retry.{
  ExponentialBackoff, new_exponential_backoff, next_backoff, retry_loop,
  retry_with_exponential_backoff,
}

abbrev pub one_more : Option Error → ℕ → ℕ
one_more none rest = 0
one_more (some e) rest = suc rest

-- The number of failures among n attempts from number i on, up to the first success.
abbrev pub failures : (ℕ → Option Error) → ℕ → ℕ → ℕ
failures fn zero i = 0
failures fn (suc n) i = one_more (fn i) (failures fn n (i + 1))

abbrev pub or_later : Option Error → Bool → Bool
or_later none rest = true
or_later (some e) rest = rest

-- Is there a success among them?
abbrev pub succeeds : (ℕ → Option Error) → ℕ → ℕ → Bool
succeeds fn zero i = false
succeeds fn (suc n) i = or_later (fn i) (succeeds fn n (i + 1))

module _ (scale : ℤ → ℤ) (fn : ℕ → Option Error) (done_before done_in_wait : ℕ → Bool) where
  waits_bounded :
      (n i : ℕ) (eb : ExponentialBackoff)
      → eb.current_wait ≤ℤ eb.max_wait
      → All (λ w. w ≤ℤ eb.max_wait) (retry_loop scale fn done_before done_in_wait n i eb).1
  unfolding retry_loop next_backoff
  waits_bounded zero i eb h = tt
  waits_bounded (suc n) i eb h =
      let next = (next_backoff scale eb).1 in
      let short : next.current_wait ≤ℤ eb.max_wait = ground arith in
      let rest = waits_bounded n (i + 1) next short in ground (arith, rest, h)

  attempts_lem :
      (n i : ℕ) (eb : ExponentialBackoff)
      → ((k : ℕ) → done_before k ≡ false)
      → ((k : ℕ) → done_in_wait k ≡ false)
      → ((retry_loop scale fn done_before done_in_wait n i eb).0
          ≡ (if succeeds fn n i then none else some max_attempts))
        × (length (retry_loop scale fn done_before done_in_wait n i eb).1 ≡ failures fn n i)
  unfolding retry_loop
  attempts_lem zero i eb a b = (refl, refl)
  attempts_lem (suc n) i eb a b =
      let (r, w) = attempts_lem n (i + 1) (next_backoff scale eb).1 a b in
      elim (Option-cases (fn i)) [
        | inl won ↦ (rw (a i, won) refl, rw (a i, won) refl)
        | inr (e, lost) ↦ (rw (a i, lost, b i) r, rw (a i, lost, b i) (ap suc w))
      ]

-- With a context that is never done, `RetryWithExponentialBackoff` with n attempts returns no error
-- exactly when one of the first n attempts succeeds, and else says that the attempts are used up. It
-- waits once after each failure before the first success, and never longer than 10 seconds.
pub retry_lem :
    (scale : ℤ → ℤ) (fn : ℕ → Option Error) (done_before done_in_wait : ℕ → Bool) (n : ℕ)
    → ((k : ℕ) → done_before k ≡ false)
    → ((k : ℕ) → done_in_wait k ≡ false)
    → let (error, waits) =
        retry_with_exponential_backoff scale fn done_before done_in_wait (pos n) in
      (error ≡ (if succeeds fn n 0 then none else some max_attempts))
      × (length waits ≡ failures fn n 0)
      × All (λ w. w ≤ℤ pos 10_000_000_000) waits
unfolding retry_with_exponential_backoff new_exponential_backoff
retry_lem scale fn done_before done_in_wait n a b =
    let eb = new_exponential_backoff (pos 100_000_000) (pos 10_000_000_000) in
    let (error, waits) = attempts_lem scale fn done_before done_in_wait n 0 eb a b in
    (error, waits, waits_bounded scale fn done_before done_in_wait n 0 eb (omega arith))
