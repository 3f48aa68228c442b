-- ===== src/Time.antt =====
-- Go's `time` package as the program uses it. An instant counts the nanoseconds since the zero
-- `time.Time` (1 January of year 1), and a duration is an `int64` of nanoseconds.
use dapper_distributed_traci.Prelude.{ℕ, Bool, ltb, leb, eqb, if◌then◌else◌}
use dapper_distributed_traci.Prelude.Int.{ℤ, pos, negsuc, sub_ℕ, max_int}

abbrev pub Time : Type 0
Time = ℕ

abbrev pub is_zero : Time → Bool
is_zero t = eqb t 0

abbrev pub is_before : Time → Time → Bool
is_before a b = ltb a b

abbrev pub is_after : Time → Time → Bool
is_after a b = ltb b a

-- What does not fit an `int64` becomes its largest or smallest value.
abbrev pub clamp : ℤ → ℤ
clamp (pos n) = if leb n max_int then pos n else pos max_int
clamp (negsuc n) = if leb n max_int then negsuc n else negsuc max_int

-- `a.Sub(b)`
abbrev pub sub : Time → Time → ℤ
sub a b = clamp (sub_ℕ a b)

abbrev pub millisecond : ℕ
millisecond = 1_000_000

abbrev pub second : ℕ
second = 1_000_000_000
