-- ===== src/Ordering/Flags.antt =====
-- Maps to `bool` as sets: writes, the keys in the order of their insertion, and the number of
-- ids that are not set, which bounds the depth of the search.
use dapper_distributed_traci.Prelude.{
  ℕ, ◌+◌, ◌≤◌, ◌<◌, String, ◌≡◌, refl, Bool, true, false, List, [], ◌∷◌, ◌++◌, arith, ◌==◌, eq_iff,
  if◌then◌else◌, has, length,
}
use dapper_distributed_traci.Table.{Table, insert, keys, is_set}
use dapper_distributed_traci.Table.Laws.{lookup-insert}

pub is_set-insert :
    (k j : String) (b : Bool) (m : Table Bool)
    → is_set j (insert k b m) ≡ (if k == j then b else is_set j m)
is_set-insert k j b m = ground (arith, lookup-insert k j b m)

pub keys-insert_new {ℓ} :
    {V : Type ℓ} (k : String) (v : V) (m : Table V)
    → has k (keys m) ≡ false
    → keys (insert k v m) ≡ keys m ++ k ∷ []
unfolding insert
keys-insert_new k v [] h = refl
keys-insert_new k v ((j, w) ∷ m) h = ground (arith, keys-insert_new k v m)

pub has-keys-insert {ℓ} :
    {V : Type ℓ} (k j : String) (v : V) (m : Table V)
    → has j (keys (insert k v m)) ≡ (if k == j then true else has j (keys m))
unfolding insert
has-keys-insert k j v [] = refl
has-keys-insert k j v ((i, w) ∷ m) =
    ground (arith, eq_iff i k, eq_iff k j, eq_iff i j, has-keys-insert k j v m)

-- How many of the ids are not set.
pub free : List String → Table Bool → ℕ
free [] m = 0
free (x ∷ xs) m = (if is_set x m then 0 else 1) + free xs m

pub free-congr :
    (ids : List String) (m m' : Table Bool)
    → ((j : String) → is_set j m' ≡ is_set j m)
    → free ids m' ≡ free ids m
unfolding free
free-congr [] m m' h = refl
free-congr (x ∷ xs) m m' h = ground (arith, h x, free-congr xs m m' h)

free-insert_le :
    (ids : List String) (k : String) (m : Table Bool) → free ids (insert k true m) ≤ free ids m
unfolding free
free-insert_le [] k m = omega arith
free-insert_le (x ∷ xs) k m = ground (arith, is_set-insert k x true m, free-insert_le xs k m)

pub free-insert_lt :
    (ids : List String) (k : String) (m : Table Bool)
    → has k ids ≡ true
    → is_set k m ≡ false
    → free ids (insert k true m) < free ids m
unfolding free
free-insert_lt [] k m h e = absurd (ground arith)
free-insert_lt (x ∷ xs) k m h e = ground (
  arith,
  eq_iff x k,
  eq_iff k x,
  is_set-insert k x true m,
  free-insert_le xs k m,
  free-insert_lt xs k m,
)

pub free-le-length : (ids : List String) (m : Table Bool) → free ids m ≤ length ids
unfolding free
free-le-length [] m = omega arith
free-le-length (x ∷ xs) m = ground (arith, free-le-length xs m)
