-- ===== src/Clock.antt =====
-- The vector clocks of pkg/clock.go. A method on `*VectorClock` returns the new clock. The
-- mutexes serialise each method, which is one step here, and the debug prints are left out.
pub mod Entries
pub mod Order
mod Tests
use dapper_distributed_traci.Prelude.{
  ℕ, ◌+◌, ◌%◌, String, Bool, true, false, Option, none, some, [], ◌∷◌, ◌&&◌, not, ltb,
  if◌then◌else◌,
}
use dapper_distributed_traci.Prelude.Int.{ℤ, pos, negsuc, u64_mod}
use dapper_distributed_traci.Table.{Table, lookup, insert}
use dapper_distributed_traci.Wire

pub record VectorClock : Type 0 where
  pub timestamps : Table ℕ

pub new_vector_clock : String → VectorClock
new_vector_clock node_id = record { timestamps = insert node_id 1 [] }

-- What a map read yields for a missing key.
abbrev pub count_of : Option ℕ → ℕ
count_of none = 0
count_of (some t) = t

-- `if _, exists := ts[node]; !exists { ts[node] = 0 }`
ensure : String → Table ℕ → Table ℕ
ensure node ts = elim (lookup node ts) [ none ↦ insert node 0 ts | some _ ↦ ts ]

-- `ts[node]++` on a `uint64`.
bump : String → Table ℕ → Table ℕ
bump node ts = insert node ((count_of (lookup node ts) + 1) % u64_mod) ts

pub increment : String → VectorClock → VectorClock
unfolding ensure bump
increment node_id vc = record { timestamps = bump node_id (ensure node_id vc.timestamps) }

-- One round of the loop of `Merge`.
merge_entry : String → ℕ → Table ℕ → Table ℕ
merge_entry node time ts = elim (lookup node ts) [
  | none ↦ insert node time ts
  | some current ↦ if ltb current time then insert node time ts else ts
]

pub merge_loop : Table ℕ → Table ℕ → Table ℕ
merge_loop [] ts = ts
merge_loop ((node, time) ∷ rest) ts = merge_loop rest (merge_entry node time ts)

pub merge : VectorClock → Option VectorClock → VectorClock
unfolding merge_loop merge_entry
merge vc none = vc
merge vc (some other) = record { timestamps = merge_loop other.timestamps vc.timestamps }

-- The two loops of `Compare`: is every entry matched by one that is as large?
pub all_within : Table ℕ → Table ℕ → Bool
all_within [] other = true
all_within ((node, time) ∷ rest) other = elim (lookup node other) [
  | none ↦ false
  | some other_time ↦ elim (ltb other_time time) [ true ↦ false | false ↦ all_within rest other ]
]

-- -1, 1 and 0, the results of `Compare`.
abbrev pub before : ℤ
before = negsuc 0

abbrev pub after : ℤ
after = pos 1

abbrev pub concurrent : ℤ
concurrent = pos 0

unfoldable pub compare : VectorClock → Option VectorClock → ℤ
unfolding all_within
compare vc none = after
compare vc (some other) =
    let less_than_or_equal = all_within vc.timestamps other.timestamps in
    let greater_than_or_equal = all_within other.timestamps vc.timestamps in
    if less_than_or_equal && not greater_than_or_equal
    then before
    else if not less_than_or_equal && greater_than_or_equal
    then after
    else concurrent

-- `for node, time := range src { dst[node] = time }`
pub copy_loop : Table ℕ → Table ℕ → Table ℕ
copy_loop [] dst = dst
copy_loop ((node, time) ∷ rest) dst = copy_loop rest (insert node time dst)

-- The receiver may be nil.
pub copy : Option VectorClock → VectorClock
copy none = record { timestamps = [] }
copy (some vc) = record { timestamps = copy_loop vc.timestamps [] }

pub to_proto : VectorClock → Wire.VectorClock
to_proto vc = record { timestamps = copy_loop vc.timestamps [] }

unfoldable pub vector_clock_from_proto : Option Wire.VectorClock → VectorClock
unfolding copy_loop
vector_clock_from_proto none = record { timestamps = [] }
vector_clock_from_proto (some p) = record { timestamps = copy_loop p.timestamps [] }
