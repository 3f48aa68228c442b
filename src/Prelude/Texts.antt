-- ===== src/Prelude/Texts.antt =====
-- Lists of texts as sets: membership as a test, and lists with no repetition.
use mathlib.Core.Path.{◌≡◌, refl, ◌∙◌}
use mathlib.Core.Bool.{Bool, true, false, ◌||◌}
use mathlib.Core.List.{List, [], ◌∷◌, ◌++◌, reverse, reverse-append}
use Prim.Native.String.{String}
use native.Mathlib.Omega.{arith}
use text.Mathlib.Text.{◌==◌}
use text.Mathlib.TextEquality.{eq_iff}
use dapper_distributed_traci.Prelude.Tests.{if◌then◌else◌}

abbrev pub has : String → List String → Bool
has k [] = false
has k (x ∷ xs) = if x == k then true else has k xs

-- No text stands twice.
abbrev pub Distinct : List String → Type 0
Distinct [] = Unit
Distinct (x ∷ xs) = (has x xs ≡ false) × Distinct xs

pub has-append : (k : String) (xs ys : List String) → has k (xs ++ ys) ≡ has k xs || has k ys
has-append k [] ys = refl
has-append k (x ∷ xs) ys = ground (arith, has-append k xs ys)

pub has-reverse : (k : String) (xs : List String) → has k (reverse xs) ≡ has k xs
has-reverse k [] = refl
has-reverse k (x ∷ xs) =
    rw (reverse-append (x ∷ []) xs)
      (ground (arith, has-append k (reverse xs) (x ∷ []), has-reverse k xs))

pub Distinct-snoc :
    (xs : List String) (x : String) → Distinct xs → has x xs ≡ false → Distinct (xs ++ x ∷ [])
Distinct-snoc [] x d h = ground arith
Distinct-snoc (y ∷ ys) x d h =
    ground (arith, has-append y ys (x ∷ []), eq_iff x y, eq_iff y x, Distinct-snoc ys x d.1)

pub Distinct-reverse : (xs : List String) → Distinct xs → Distinct (reverse xs)
Distinct-reverse [] d = tt
Distinct-reverse (x ∷ xs) d =
    rw (reverse-append (x ∷ []) xs)
      (Distinct-snoc (reverse xs) x (Distinct-reverse xs d.1) (has-reverse x xs ∙ d.0))
