-- ===== src/Table.antt =====
-- Go's maps with string keys, as association lists whose order is the order of one iteration.
-- `lookup` is `v, ok := m[k]`, `insert` is `m[k] = v` and `delete` is `delete(m, k)`.
pub mod Laws
use dapper_distributed_traci.Prelude.{
  String, ◌≡◌, Bool, true, false, Option, none, some, List, [], ◌∷◌, ◌==◌, if◌then◌else◌,
}

abbrev pub Table {ℓ} : Type ℓ → Type ℓ
Table V = List (String × V)

module _ {ℓ} {V : Type ℓ} where
  unfoldable pub lookup : (key : String) → (m : Table V) → Option V
  lookup key [] = none
  lookup key ((other, value) ∷ rest) = if other == key then some value else lookup key rest

  unfoldable pub delete : (key : String) → (m : Table V) → Table V
  delete key [] = []
  delete key ((other, value) ∷ rest) =
      let kept = delete key rest in if other == key then kept else (other, value) ∷ kept

  -- A key that is there keeps its place.
  unfoldable pub insert : (key : String) → (new : V) → (m : Table V) → Table V
  insert key new [] = (key, new) ∷ []
  insert key new ((other, value) ∷ rest) =
      if other == key then (key, new) ∷ rest else (other, value) ∷ insert key new rest

  abbrev pub keys : Table V → List String
  keys [] = []
  keys ((k, v) ∷ m) = k ∷ keys m

  -- No key stands twice, as in every Go map.
  abbrev pub IsMap : Table V → Type ℓ
  IsMap [] = Unit
  IsMap ((k, v) ∷ m) = (lookup k m ≡ none) × IsMap m

-- A set is a map to `bool`; a missing key reads as `false`.
abbrev pub flag : Option Bool → Bool
flag none = false
flag (some b) = b

abbrev pub is_set : String → Table Bool → Bool
is_set k m = flag (lookup k m)
