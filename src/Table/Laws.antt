-- ===== src/Table/Laws.antt =====
-- What a read returns after a write, and that writes keep the keys apart.
use dapper_distributed_traci.Prelude.{
  String, ◌≡◌, refl, none, some, [], ◌∷◌, arith, ◌==◌, eq_iff, if◌then◌else◌,
}
use dapper_distributed_traci.Table.{Table, lookup, insert, delete, IsMap}

module _ {ℓ} {V : Type ℓ} where
  pub lookup-insert :
      (key read : String) (new : V) (m : Table V)
      → lookup read (insert key new m) ≡ (if key == read then some new else lookup read m)
  unfolding lookup insert
  lookup-insert key read new [] = refl
  lookup-insert key read new ((other, value) ∷ rest) =
      ground (
        arith,
        eq_iff other read,
        eq_iff other key,
        eq_iff key read,
        lookup-insert key read new rest,
      )

  pub lookup-delete :
      (k j : String) (m : Table V) → lookup j (delete k m) ≡ (if k == j then none else lookup j m)
  unfolding lookup delete
  lookup-delete k j [] = ground arith
  lookup-delete k j ((i, w) ∷ m) =
      ground (arith, eq_iff k j, eq_iff i k, eq_iff i j, lookup-delete k j m)

  pub insert-IsMap : (k : String) (v : V) (m : Table V) → IsMap m → IsMap (insert k v m)
  unfolding insert lookup
  insert-IsMap k v [] h = ground arith
  insert-IsMap k v ((i, w) ∷ m) h =
      ground (arith, eq_iff i k, eq_iff k i, lookup-insert k i v m, insert-IsMap k v m h.1)

  pub delete-IsMap : (k : String) (m : Table V) → IsMap m → IsMap (delete k m)
  unfolding delete lookup
  delete-IsMap k [] h = ground arith
  delete-IsMap k ((i, w) ∷ m) h =
      ground (arith, eq_iff i k, lookup-delete k i m, delete-IsMap k m h.1)
