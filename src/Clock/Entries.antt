-- ===== src/Clock/Entries.antt =====
-- What the loops of pkg/clock.go do to one entry. An absent entry ranks below a zero.
use dapper_distributed_traci.Prelude.{
  ℕ, suc, ◌≤◌, max, String, ◌≡◌, refl, true, Option, none, some, [], ◌∷◌, arith, ◌==◌, eq_iff,
  if◌then◌else◌,
}
use dapper_distributed_traci.Table.{Table, lookup, insert, IsMap}
use dapper_distributed_traci.Table.Laws.{lookup-insert, insert-IsMap}
use dapper_distributed_traci.Clock.{merge_entry, merge_loop, all_within, copy_loop}

abbrev pub rank : Option ℕ → ℕ
rank none = 0
rank (some t) = suc t

abbrev pub level : String → Table ℕ → ℕ
level node ts = rank (lookup node ts)

level-merge_entry :
    (node n : String) (time : ℕ) (ts : Table ℕ)
    → level n (merge_entry node time ts)
      ≡ (if node == n then max (suc time) (level n ts) else level n ts)
unfolding merge_entry
level-merge_entry node n time ts = ground (arith, lookup-insert node n time ts, eq_iff node n)

pub level-merge_loop :
    (n : String) (src ts : Table ℕ)
    → IsMap src
    → level n (merge_loop src ts) ≡ max (level n src) (level n ts)
unfolding merge_loop lookup
level-merge_loop n [] ts h = omega arith
level-merge_loop n ((node, time) ∷ rest) ts h = ground (
  arith,
  eq_iff node n,
  level-merge_entry node n time ts,
  level-merge_loop n rest (merge_entry node time ts) h.1,
)

merge_entry-IsMap :
    (node : String) (time : ℕ) (ts : Table ℕ) → IsMap ts → IsMap (merge_entry node time ts)
unfolding merge_entry
merge_entry-IsMap node time ts h = ground (arith, insert-IsMap node time ts h)

pub merge_loop-IsMap : (src ts : Table ℕ) → IsMap ts → IsMap (merge_loop src ts)
unfolding merge_loop
merge_loop-IsMap [] ts h = h
merge_loop-IsMap ((node, time) ∷ rest) ts h =
    merge_loop-IsMap rest (merge_entry node time ts) (merge_entry-IsMap node time ts h)

pub lookup-copy_loop :
    (n : String) (src dst : Table ℕ)
    → IsMap src
    → lookup n (copy_loop src dst) ≡ elim (lookup n src) [ none ↦ lookup n dst | some t ↦ some t ]
unfolding copy_loop lookup
lookup-copy_loop n [] dst h = refl
lookup-copy_loop n ((node, time) ∷ rest) dst h = ground (
  arith,
  eq_iff node n,
  lookup-insert node n time dst,
  lookup-copy_loop n rest (insert node time dst) h.1,
)

pub copy_loop-IsMap : (src dst : Table ℕ) → IsMap dst → IsMap (copy_loop src dst)
unfolding copy_loop
copy_loop-IsMap [] dst h = h
copy_loop-IsMap ((node, time) ∷ rest) dst h =
    copy_loop-IsMap rest (insert node time dst) (insert-IsMap node time dst h)

-- The loop of `Compare` finds that every entry is matched exactly when no level is higher.
pub all_within_sound :
    (a b : Table ℕ) → all_within a b ≡ true → (n : String) → level n a ≤ level n b
unfolding all_within lookup
all_within_sound [] b h n = omega arith
all_within_sound ((node, time) ∷ rest) b h n =
    ground (arith, eq_iff node n, λ (p : all_within rest b ≡ true). all_within_sound rest b p n)

pub all_within_complete :
    (a b : Table ℕ) → IsMap a → ((n : String) → level n a ≤ level n b) → all_within a b ≡ true
unfolding all_within lookup
all_within_complete [] b m h = refl
all_within_complete ((node, time) ∷ rest) b m h =
    let tail = all_within_complete rest b m.1 (λ n. ground (arith, h n, eq_iff node n)) in
    ground (arith, h node, eq_iff node node, tail)
