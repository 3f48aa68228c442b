-- ===== src/Conversion.antt =====
-- `TimestampConverter` of pkg/clock.go. A duration is an `int64` of nanoseconds, whose products wrap.
-- Instants before the year 1 are left out: a time that would be earlier is that of its first instant.
pub mod RoundTrip
mod Tests
use dapper_distributed_traci.Prelude.{
  ℕ, zero, suc, ◌+◌, ◌-◌, ◌*◌, ◌/◌, ◌%◌, leb, eqb, if◌then◌else◌,
}
use dapper_distributed_traci.Prelude.Int.{ℤ, pos, negsuc, sub_ℕ, max_int, u64_mod}
use dapper_distributed_traci.Time.{Time, sub, millisecond}

-- `time.Duration(n)` of a `uint64`, and of a product that is too large for an `int64`.
pub wrap_int64 : ℕ → ℤ
wrap_int64 n = let m = n % u64_mod in if leb m max_int then pos m else negsuc (u64_mod - 1 - m)

-- `d * time.Millisecond`
pub in_milliseconds : ℤ → ℤ
unfolding wrap_int64
in_milliseconds (pos n) = wrap_int64 (n * millisecond)
in_milliseconds (negsuc n) = wrap_int64 (u64_mod - (n + 1) * millisecond % u64_mod)

-- `t.Add(d)`
pub add_duration : Time → ℤ → Time
add_duration t (pos d) = t + d
add_duration t (negsuc d) = t - (d + 1)

-- `-d`; the smallest `int64` is its own negation.
pub negated : ℤ → ℤ
negated (pos zero) = pos 0
negated (pos (suc n)) = negsuc n
negated (negsuc n) = if eqb n max_int then negsuc n else pos (n + 1)

-- `d.Milliseconds()`, which cuts off towards 0.
unfoldable pub milliseconds : ℤ → ℤ
milliseconds (pos n) = pos (n / millisecond)
milliseconds (negsuc n) = sub_ℕ 0 ((n + 1) / millisecond)

-- `uint64(d)`
pub as_uint64 : ℤ → ℕ
as_uint64 (pos n) = n
as_uint64 (negsuc n) = u64_mod - (n + 1)

pub record TimestampConverter : Type 0 where
  pub base_time : Time
  pub drift_estimate : ℤ

pub new_timestamp_converter : Time → TimestampConverter
new_timestamp_converter now = record { base_time = now; drift_estimate = pos 0 }

pub update_drift : ℤ → TimestampConverter → TimestampConverter
unfolding in_milliseconds
update_drift estimated_drift_ms tc = record tc {
  drift_estimate = in_milliseconds estimated_drift_ms;
}

pub adjust_timestamp : Time → TimestampConverter → Time
unfolding add_duration negated
adjust_timestamp timestamp tc = add_duration timestamp (negated tc.drift_estimate)

pub logical_to_physical : ℕ → TimestampConverter → Time
unfolding add_duration in_milliseconds wrap_int64
logical_to_physical logical_time tc =
    add_duration tc.base_time (in_milliseconds (wrap_int64 logical_time))

pub physical_to_logical : Time → TimestampConverter → ℕ
unfolding milliseconds as_uint64
physical_to_logical physical_time tc = as_uint64 (milliseconds (sub physical_time tc.base_time))
