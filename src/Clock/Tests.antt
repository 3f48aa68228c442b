-- ===== src/Clock/Tests.antt =====
-- Runs of the clock operations, and the theorems on them at concrete clocks.
use dapper_distributed_traci.Prelude.{max, String, ◌≡◌, refl, ◌↔◌, some, none, [], ◌∷◌, arith}
use dapper_distributed_traci.Table.{lookup, insert}
use dapper_distributed_traci.Clock.{
  VectorClock, increment, merge, before, after, concurrent, compare, copy, to_proto,
  vector_clock_from_proto,
}
use dapper_distributed_traci.Clock.Entries.{level}
use dapper_distributed_traci.Clock.Order.{
  IsClock, ◌⊑◌, compare-before_iff, compare_flip, before_trans, compare-increment,
  merge_least_upper_bound, copies_agree,
}

abbrev early : VectorClock
early = record { timestamps = ("a", 2) ∷ [] }

abbrev middle : VectorClock
middle = record { timestamps = ("b", 1) ∷ ("a", 2) ∷ [] }

abbrev late : VectorClock
late = record { timestamps = ("a", 3) ∷ ("b", 4) ∷ [] }

abbrev aside : VectorClock
aside = record { timestamps = ("c", 1) ∷ [] }

early-IsClock : IsClock early
unfolding lookup
early-IsClock = (refl, tt)

middle-IsClock : IsClock middle
unfolding lookup
middle-IsClock = (refl, (refl, tt))

late-IsClock : IsClock late
unfolding lookup
late-IsClock = (refl, (refl, tt))

aside-IsClock : IsClock aside
unfolding lookup
aside-IsClock = (refl, tt)

early-before-middle : compare early (some middle) ≡ before
unfolding compare lookup
early-before-middle = refl

middle-before-late : compare middle (some late) ≡ before
unfolding compare lookup
middle-before-late = refl

late-aside-concurrent : compare late (some aside) ≡ concurrent
unfolding compare lookup
late-aside-concurrent = refl

merge_runs : (merge late (some aside)).timestamps ≡ ("a", 3) ∷ ("b", 4) ∷ ("c", 1) ∷ []
unfolding merge lookup insert
merge_runs = refl

compare-before_iff_example :
    (compare early (some late) ≡ before) ↔ ((early ⊑ late) × ¬ (late ⊑ early))
compare-before_iff_example = compare-before_iff early late early-IsClock late-IsClock

flip_run :
    ((compare late (some early) ≡ after) ↔ (compare early (some late) ≡ before))
    × ((compare late (some early) ≡ concurrent) ↔ (compare early (some late) ≡ concurrent))
    × (compare late none ≡ after)
flip_run = compare_flip late early

early_run : (compare early (some late) ≡ before) × (compare late (some early) ≡ after)
early_run =
    before_trans early middle late early-IsClock middle-IsClock late-IsClock early-before-middle
      middle-before-late

tick_run : compare late (some (increment "a" late)) ≡ before
unfolding lookup
tick_run = compare-increment "a" late late-IsClock (omega arith)

merge_least_upper_bound_example :
    ((c : VectorClock) → (merge late (some aside) ⊑ c) ↔ ((late ⊑ c) × (aside ⊑ c)))
    × ((n : String)
        → level n (merge late (some aside)).timestamps
          ≡ max (level n aside.timestamps) (level n late.timestamps))
    × IsClock (merge late (some aside))
    × (merge late none ≡ late)
merge_least_upper_bound_example = merge_least_upper_bound late aside late-IsClock aside-IsClock

same_entries :
    (lookup "b" (copy (some late)).timestamps ≡ lookup "b" late.timestamps)
    × (lookup "b" (vector_clock_from_proto (some (to_proto late))).timestamps
        ≡ lookup "b" late.timestamps)
    × (lookup "b" (copy none).timestamps ≡ none)
same_entries = copies_agree late late-IsClock "b"
