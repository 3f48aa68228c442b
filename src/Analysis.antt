-- ===== src/Analysis.antt =====
-- What the analyses of pkg/analysis.go share. A trace has no nil spans, as after gRPC; `as_time` is
-- `AsTime` of timestamppb. What a `float64` computes is a parameter, `Floats`.
pub mod CriticalPath
pub mod Latency
pub mod Dependencies
pub mod Bottlenecks
pub mod Sla
pub mod Anomalies
pub mod Report
mod Examples
use Prim.Native.String.{String, ◌++◌ as concat}
use dapper_distributed_traci.Prelude.{
  ℕ, zero, suc, ◌-◌, Bool, true, false, Option, none, some, List, [], ◌∷◌, length, ltb, leb,
  if◌then◌else◌, Result, ok, err, panic,
}
use dapper_distributed_traci.Prelude.Int.{ℤ, pos, negsuc, leb_ℤ}
use dapper_distributed_traci.Time.{Time, sub}
use dapper_distributed_traci.Wire.{Timestamp, Span}
use dapper_distributed_traci.Conversion.{milliseconds}

module _ (as_time : Timestamp → Time) where
  -- The milliseconds from start to end, where both are there.
  abbrev pub between : Option Timestamp → Option Timestamp → Option ℤ
  between none end = none
  between (some start) none = none
  between (some start) (some end) = some (milliseconds (sub (as_time end) (as_time start)))

  abbrev pub latency_ms : Span → Option ℤ
  latency_ms span = between span.start_time span.end_time

-- The arithmetic of `float64`: conversions from and to `int64`, and what is asked of two numbers.
pub record Floats (F : Type 0) : Type 0 where
  pub of_int : ℤ → F
  pub truncate : F → ℤ
  pub plus : F → F → F
  pub times : F → F → F
  pub over : F → F → F
  pub less : F → F → Bool
  pub tenth : F

-- `service:operation`
abbrev pub operation_key : String → String → String
operation_key service operation = concat service (concat ":" operation)

-- `values[i]`
abbrev pub value_at : ℕ → List ℤ → Result ℤ
value_at i [] = panic
value_at zero (value ∷ rest) = ok value
value_at (suc i) (value ∷ rest) = value_at i rest

abbrev pub index_of : ℤ → List ℤ → Result ℤ
index_of (pos i) values = value_at i values
index_of (negsuc i) values = panic

module _ {F : Type 0} (floats : Floats F) where
  -- `((average * float64(count-1)) + value) / float64(count)`
  abbrev pub running_average : F → ℤ → F → F → F
  running_average average before count value =
      floats.over (floats.plus (floats.times average (floats.of_int before)) value) count

  -- The larger indices are cut to the last.
  abbrev pub percentile_index : List ℤ → ℤ → ℤ
  percentile_index values p =
      let i = floats.truncate (
        floats.times (floats.over (floats.of_int p) (floats.of_int (pos 100)))
          (floats.of_int (pos (length values)))) in
      if leb_ℤ (pos (length values)) i then pos (length values - 1) else i

  unfoldable pub percentile : List ℤ → ℤ → Result ℤ
  percentile [] p = ok (pos 0)
  percentile (value ∷ rest) p = index_of (percentile_index (value ∷ rest) p) (value ∷ rest)
