-- ===== src/Sampler/Limit.antt =====
-- How many traces the rate limit lets through in a second.
use dapper_distributed_traci.Prelude.{
  ℕ, zero, suc, ◌-◌, ◌≤◌, ◌≡◌, refl, ap, ◌∙◌, Bool, true, false, not, arith, if◌then◌else◌, leb,
}
use dapper_distributed_traci.Prelude.Int.{ℤ, pos, eqb_ℤ, max_int}
use dapper_distributed_traci.Sampler.{RateLimitingSampler, rate_limited_sample, renew}

abbrev pub count_if : Bool → ℕ → ℕ
count_if true n = suc n
count_if false n = n

-- How many of n calls in one second are sampled.
pub sampled : ℤ → ℕ → RateLimitingSampler → ℕ
sampled now zero s = 0
sampled now (suc n) s = let r = rate_limited_sample now s in count_if r.1 (sampled now n r.0)

rate_limited_sample_lem :
    (now : ℤ) (s : RateLimitingSampler) (l c : ℕ)
    → s.traces_per_second ≡ pos l
    → l ≤ max_int
    → eqb_ℤ now s.current_second ≡ true
    → s.current_count ≡ pos c
    → c ≤ l
    → let r = rate_limited_sample now s in
      (r.0.traces_per_second ≡ pos l)
      × (eqb_ℤ now r.0.current_second ≡ true)
      × (r.0.current_count ≡ pos (if leb l c then c else suc c))
      × (r.1 ≡ not (leb l c))
unfolding rate_limited_sample
rate_limited_sample_lem now s l c a b d e f =
    (ground arith, ground arith, ground arith, ground arith)

within :
    (now : ℤ) (n : ℕ) (s : RateLimitingSampler) (l c : ℕ)
    → s.traces_per_second ≡ pos l
    → l ≤ max_int
    → eqb_ℤ now s.current_second ≡ true
    → s.current_count ≡ pos c
    → c ≤ l
    → sampled now n s ≡ (if leb (l - c) n then l - c else n)
unfolding sampled
within now zero s l c a b d e f = ground arith
within now (suc n) s l c a b d e f =
    let (limit, second, count, said) = rate_limited_sample_lem now s l c a b d e f in
    let rest =
      within now n (rate_limited_sample now s).0 l (if leb l c then c else suc c) limit b second
        count (ground arith) in
    ground (arith, rest, said)

abbrev renewed : ℤ → RateLimitingSampler → RateLimitingSampler
renewed now s = record s { current_second = now; current_count = pos 0 }

eqb_self : (a : ℤ) → eqb_ℤ a a ≡ true
eqb_self a = ground arith

sample-renewed :
    (now : ℤ) (s : RateLimitingSampler)
    → eqb_ℤ now s.current_second ≡ false
    → rate_limited_sample now s ≡ rate_limited_sample now (renewed now s)
unfolding rate_limited_sample renew
sample-renewed now s new = rw (new, eqb_self now) refl

sampled-renewed :
    (now : ℤ) (n : ℕ) (s : RateLimitingSampler)
    → eqb_ℤ now s.current_second ≡ false
    → sampled now n s ≡ sampled now n (renewed now s)
unfolding sampled
sampled-renewed now zero s new = refl
sampled-renewed now (suc n) s new =
    ap (λ r. count_if r.1 (sampled now n r.0)) (sample-renewed now s new)

-- Of n calls in a second that is new to the sampler, with a limit of l per second that fits an
-- `int`, the smaller of n and l are sampled.
pub sampled_in_second :
    (now : ℤ) (n l : ℕ) (s : RateLimitingSampler)
    → s.traces_per_second ≡ pos l
    → l ≤ max_int
    → eqb_ℤ now s.current_second ≡ false
    → sampled now n s ≡ (if leb l n then l else n)
sampled_in_second now n l s limit fits new =
    let all : l - 0 ≡ l = omega arith in
    sampled-renewed now n s new
    ∙ within now n (renewed now s) l 0 limit fits (eqb_self now) refl (omega arith)
    ∙ ap (λ k. if leb k n then k else n) all
