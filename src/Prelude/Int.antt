-- ===== src/Prelude/Int.antt =====
-- Go's `int` and `int64` over the native numbers: signed 64-bit values with their wrap-around.
use Prim.Native.Nat.{ℕ, zero, suc, ◌+◌, ◌-◌, ◌%◌, ◌≤◌, ◌<◌}
use mathlib.Core.Path.{◌≡◌}
use mathlib.Core.Bool.{Bool}
use native.Mathlib.Omega.{arith}
use dapper_distributed_traci.Prelude.Tests.{ltb, leb, eqb, if◌then◌else◌}

-- `negsuc n` is -(n + 1).
pub data ℤ : Type 0 where
  pos : ℕ → ℤ
  negsuc : ℕ → ℤ

abbrev pub pos_part : ℤ → ℕ
pos_part (pos n) = n
pos_part (negsuc n) = 0

abbrev pub neg_part : ℤ → ℕ
neg_part (pos n) = 0
neg_part (negsuc n) = suc n

-- a - b, as an integer.
abbrev pub sub_ℕ : ℕ → ℕ → ℤ
sub_ℕ a b = if leb b a then pos (a - b) else negsuc (b - a - 1)

infixl 65 ◌+ℤ◌
infix 50 ◌≤ℤ◌ ◌<ℤ◌
unfoldable pub ◌+ℤ◌ : ℤ → ℤ → ℤ
a +ℤ b = sub_ℕ (pos_part a + pos_part b) (neg_part a + neg_part b)

abbrev pub ◌≤ℤ◌ : ℤ → ℤ → Type 0
a ≤ℤ b = pos_part a + neg_part b ≤ pos_part b + neg_part a

abbrev pub ◌<ℤ◌ : ℤ → ℤ → Type 0
a <ℤ b = pos_part a + neg_part b < pos_part b + neg_part a

abbrev pub ltb_ℤ : ℤ → ℤ → Bool
ltb_ℤ a b = ltb (pos_part a + neg_part b) (pos_part b + neg_part a)

abbrev pub leb_ℤ : ℤ → ℤ → Bool
leb_ℤ a b = leb (pos_part a + neg_part b) (pos_part b + neg_part a)

-- The largest `int`, 2^63 - 1, and the count of values of a `uint64`.
abbrev pub max_int : ℕ
max_int = 9_223_372_036_854_775_807

abbrev pub u64_mod : ℕ
u64_mod = 18_446_744_073_709_551_616

-- `n++` on an `int`: the largest value wraps to the smallest.
abbrev pub next_int : ℤ → ℤ
next_int (pos n) = if eqb n max_int then negsuc max_int else pos (n + 1)
next_int (negsuc zero) = pos 0
next_int (negsuc (suc n)) = negsuc n

abbrev pub eqb_ℤ : ℤ → ℤ → Bool
eqb_ℤ a b = eqb (pos_part a + neg_part b) (pos_part b + neg_part a)

-- `n++` on an `int32`.
abbrev pub max_int32 : ℕ
max_int32 = 2_147_483_647

abbrev pub next_int32 : ℤ → ℤ
next_int32 (pos n) = if eqb n max_int32 then negsuc max_int32 else pos (n + 1)
next_int32 (negsuc zero) = pos 0
next_int32 (negsuc (suc n)) = negsuc n

-- `int32(n)`
abbrev pub to_int32 : ℕ → ℤ
to_int32 n =
    let m = n % 4_294_967_296 in if leb m max_int32 then pos m else negsuc (4_294_967_295 - m)

-- `a + b` on an `int64`.
abbrev pub wrap : ℤ → ℤ
wrap (pos n) = if leb n max_int then pos n else negsuc (u64_mod - 1 - n)
wrap (negsuc n) = if leb n max_int then negsuc n else pos (u64_mod - 1 - n)

unfoldable pub add_int64 : ℤ → ℤ → ℤ
add_int64 a b = wrap (a +ℤ b)

-- How far from 0.
abbrev pub size_ℤ : ℤ → ℕ
size_ℤ a = pos_part a + neg_part a

-- Where it does not wrap.
pub add_int64-+ℤ : (a b : ℤ) → size_ℤ a + size_ℤ b ≤ max_int → add_int64 a b ≡ a +ℤ b
unfolding add_int64 ◌+ℤ◌
add_int64-+ℤ (pos n) (pos m) h = ground arith
add_int64-+ℤ (pos n) (negsuc m) h = ground arith
add_int64-+ℤ (negsuc n) (pos m) h = ground arith
add_int64-+ℤ (negsuc n) (negsuc m) h = ground arith

pub +ℤ-parts :
    (a b : ℤ)
    → (pos_part (a +ℤ b) + neg_part a + neg_part b ≡ neg_part (a +ℤ b) + pos_part a + pos_part b)
      × (size_ℤ (a +ℤ b) ≤ size_ℤ a + size_ℤ b)
unfolding ◌+ℤ◌
+ℤ-parts (pos n) (pos m) = ground arith
+ℤ-parts (pos n) (negsuc m) = ground arith
+ℤ-parts (negsuc n) (pos m) = ground arith
+ℤ-parts (negsuc n) (negsuc m) = ground arith

-- `a - b` on an `int64`.
unfoldable pub sub_int64 : ℤ → ℤ → ℤ
sub_int64 a b = wrap (sub_ℕ (pos_part a + neg_part b) (neg_part a + pos_part b))
