-- ===== src/Clock/Order.antt =====
-- `Compare`, `Increment`, `Merge` and the copies of pkg/clock.go against the pointwise order.
use dapper_distributed_traci.Prelude.{
  ◌+◌, ◌%◌, ◌≤◌, ◌<◌, max, String, ◌≡◌, refl, true, false, Option, none, some, [], arith, ◌==◌,
  eq_iff, ◌↔◌, Bool-cases, inl, inr, if◌then◌else◌,
}
use dapper_distributed_traci.Prelude.Int.{u64_mod}
use dapper_distributed_traci.Table.{lookup, IsMap}
use dapper_distributed_traci.Table.Laws.{lookup-insert, insert-IsMap}
use dapper_distributed_traci.Clock.{
  VectorClock, ensure, increment, merge, all_within, before, after, concurrent, compare, copy_loop,
  copy, to_proto, vector_clock_from_proto, count_of,
}
use dapper_distributed_traci.Clock.Entries.{
  level, level-merge_loop, merge_loop-IsMap, lookup-copy_loop, copy_loop-IsMap, all_within_sound,
  all_within_complete,
}

abbrev pub IsClock : VectorClock → Type 0
IsClock vc = IsMap vc.timestamps

-- Every entry of the first is matched in the second by one that is as large.
infix 50 ◌⊑◌
abbrev pub ◌⊑◌ : VectorClock → VectorClock → Type 0
a ⊑ b = (n : String) → level n a.timestamps ≤ level n b.timestamps

before_tests :
    (a b : VectorClock)
    → (compare a (some b) ≡ before) ↔ (
        (all_within a.timestamps b.timestamps ≡ true)
        × (all_within b.timestamps a.timestamps ≡ false))
unfolding compare
before_tests a b = (λ h. ground arith, λ h. ground arith)

pub compare_self : (a : VectorClock) → compare a (some a) ≡ concurrent
unfolding compare
compare_self a = ground arith

-- A refused test says that some level is higher.
not_within :
    (a b : VectorClock) → IsClock a → (all_within a.timestamps b.timestamps ≡ false) ↔ (¬ (a ⊑ b))
not_within a b m = (
  λ h le. cc (h, all_within_complete a.timestamps b.timestamps m le),
  λ h. elim (Bool-cases (all_within a.timestamps b.timestamps)) [
    | inl t ↦ absurd (h (all_within_sound a.timestamps b.timestamps t))
    | inr f ↦ f
  ],
)

-- For clocks with distinct keys, `Compare` answers -1 exactly when every entry of the receiver is
-- matched in the other clock by one that is as large, and not the other way round.
pub compare-before_iff :
    (a b : VectorClock)
    → IsClock a
    → IsClock b
    → (compare a (some b) ≡ before) ↔ ((a ⊑ b) × ¬ (b ⊑ a))
compare-before_iff a b ma mb = (
  λ h.
      let (w, v) = (before_tests a b).0 h in
      (all_within_sound a.timestamps b.timestamps w, (not_within b a mb).0 v),
  λ h.
      (before_tests a b).1
        (all_within_complete a.timestamps b.timestamps ma h.0, (not_within b a mb).1 h.1),
)

-- For all clocks a and b: `Compare` of a with b is 1 exactly when that of b with a is -1, and it is
-- 0 exactly when that of b with a is 0. Compared with nil it is 1.
pub compare_flip :
    (a b : VectorClock)
    → ((compare a (some b) ≡ after) ↔ (compare b (some a) ≡ before))
      × ((compare a (some b) ≡ concurrent) ↔ (compare b (some a) ≡ concurrent))
      × (compare a none ≡ after)
unfolding compare
compare_flip a b =
    ((λ h. ground arith, λ h. ground arith), (λ h. ground arith, λ h. ground arith), refl)

-- For clocks with distinct keys, of which the first happens before the second and the second before
-- the third (`Compare` gives -1), the first happens before the third, and not the third before it.
pub before_trans :
    (a b c : VectorClock)
    → IsClock a
    → IsClock b
    → IsClock c
    → compare a (some b) ≡ before
    → compare b (some c) ≡ before
    → (compare a (some c) ≡ before) × (compare c (some a) ≡ after)
before_trans a b c ma mb mc p q =
    let (ab, ba) = (compare-before_iff a b ma mb).0 p in
    let (bc, cb) = (compare-before_iff b c mb mc).0 q in
    let ac : compare a (some c) ≡ before =
      (compare-before_iff a c ma mc).1
        (λ n. omega (arith, ab n, bc n), λ ca. cb (λ n. omega (arith, ca n, ab n))) in
    (ac, (compare_flip c a).0.1 ac)

pub level-increment :
    (node_id n : String) (vc : VectorClock)
    → count_of (lookup node_id vc.timestamps) + 1 < u64_mod
    → level n (increment node_id vc).timestamps ≡ (
        if node_id == n then count_of (lookup node_id vc.timestamps) + 2 else level n vc.timestamps)
unfolding increment
level-increment node_id n vc h = ground (
  arith,
  eq_iff node_id n,
  eq_iff node_id node_id,
  lookup-insert node_id n ((count_of (lookup node_id (ensure node_id vc.timestamps)) + 1) % u64_mod)
      (ensure node_id vc.timestamps),
  lookup-insert node_id n 0 vc.timestamps,
  lookup-insert node_id node_id 0 vc.timestamps,
)

pub increment-IsClock :
    (node_id : String) (vc : VectorClock) → IsClock vc → IsClock (increment node_id vc)
unfolding increment
increment-IsClock node_id vc m =
    let ensured : IsMap (ensure node_id vc.timestamps) =
      ground (arith, insert-IsMap node_id 0 vc.timestamps m) in
    insert-IsMap node_id ((count_of (lookup node_id (ensure node_id vc.timestamps)) + 1) % u64_mod)
      (ensure node_id vc.timestamps) ensured

-- A clock with distinct keys happens before its own increment, unless the counter of the node is
-- at the largest `uint64`, where the increment wraps to 0.
pub compare-increment :
    (node_id : String) (vc : VectorClock)
    → IsClock vc
    → count_of (lookup node_id vc.timestamps) + 1 < u64_mod
    → compare vc (some (increment node_id vc)) ≡ before
compare-increment node_id vc m h =
    (compare-before_iff vc (increment node_id vc) m (increment-IsClock node_id vc m)).1 (
      λ n. ground (arith, level-increment node_id n vc h, eq_iff node_id n),
      λ back.
          ground
            (arith, level-increment node_id node_id vc h, eq_iff node_id node_id, back node_id),
    )

pub merge-IsClock : (a : VectorClock) (o : Option VectorClock) → IsClock a → IsClock (merge a o)
unfolding merge
merge-IsClock a none m = m
merge-IsClock a (some b) m = merge_loop-IsMap b.timestamps a.timestamps m

-- `Merge` of two clocks with distinct keys is their least upper bound: a clock dominates it exactly
-- when it dominates both. At each node it has the larger of the two counters, its keys are
-- distinct, and merging nil changes nothing.
pub merge_least_upper_bound :
    (a b : VectorClock)
    → IsClock a
    → IsClock b
    → ((c : VectorClock) → (merge a (some b) ⊑ c) ↔ ((a ⊑ c) × (b ⊑ c)))
      × ((n : String)
          → level n (merge a (some b)).timestamps
            ≡ max (level n b.timestamps) (level n a.timestamps))
      × IsClock (merge a (some b))
      × (merge a none ≡ a)
unfolding merge
merge_least_upper_bound a b ma mb =
    let at = λ (n : String). level-merge_loop n b.timestamps a.timestamps mb in
    (
      λ c. (
        λ h. (λ n. omega (arith, at n, h n), λ n. omega (arith, at n, h n)),
        λ h n. omega (arith, at n, h.0 n, h.1 n),
      ),
      at,
      merge_loop-IsMap b.timestamps a.timestamps ma,
      refl,
    )

-- A clock with distinct keys that is copied, or sent as a message and read back, has the same
-- entry, or none, at every node; a nil clock is copied to an empty one.
pub copies_agree :
    (vc : VectorClock)
    → IsClock vc
    → (n : String)
    → (lookup n (copy (some vc)).timestamps ≡ lookup n vc.timestamps)
      × (lookup n (vector_clock_from_proto (some (to_proto vc))).timestamps
          ≡ lookup n vc.timestamps)
      × (lookup n (copy none).timestamps ≡ none)
unfolding copy to_proto vector_clock_from_proto lookup
copies_agree vc m n =
    let sent = copy_loop vc.timestamps [] in
    (
      ground (arith, lookup-copy_loop n vc.timestamps [] m),
      ground (
        arith,
        lookup-copy_loop n vc.timestamps [] m,
        lookup-copy_loop n sent [] (copy_loop-IsMap vc.timestamps [] tt),
      ),
      refl,
    )

pub copy-IsClock : (vc : VectorClock) → IsClock (copy (some vc))
unfolding copy
copy-IsClock vc = copy_loop-IsMap vc.timestamps [] tt
