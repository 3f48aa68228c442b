-- ===== src/Conversion/RoundTrip.antt =====
-- Logical times as physical times and back.
use dapper_distributed_traci.Prelude.{ℕ, ◌+◌, ◌*◌, ◌/◌, ◌≤◌, ◌≡◌, arith}
use dapper_distributed_traci.Prelude.Int.{pos, max_int}
use dapper_distributed_traci.Time.{sub, millisecond}
use dapper_distributed_traci.Conversion.{
  TimestampConverter, wrap_int64, in_milliseconds, add_duration, milliseconds, as_uint64,
  logical_to_physical, physical_to_logical,
}

wrap_small : (n : ℕ) → n ≤ max_int → wrap_int64 n ≡ pos n
unfolding wrap_int64
wrap_small n h = ground arith

sub_sum : (t d : ℕ) → d ≤ max_int → sub (t + d) t ≡ pos d
sub_sum t d h = ground arith

div_mul : (n : ℕ) → n * millisecond / millisecond ≡ n
div_mul n = omega arith

-- A logical time, counted in milliseconds from the base time, whose nanoseconds fit an `int64`, comes
-- back from the physical time that it is converted to.
pub physical_to_logical-logical_to_physical :
    (tc : TimestampConverter) (logical_time : ℕ)
    → logical_time * millisecond ≤ max_int
    → physical_to_logical (logical_to_physical logical_time tc) tc ≡ logical_time
unfolding physical_to_logical logical_to_physical in_milliseconds add_duration milliseconds
    as_uint64
physical_to_logical-logical_to_physical tc n h =
    rw
      (
        wrap_small n (omega arith),
        wrap_small (n * millisecond) h,
        sub_sum tc.base_time (n * millisecond) h,
      )
      (div_mul n)
