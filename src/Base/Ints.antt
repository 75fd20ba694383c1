-- ===== src/Base/Ints.antt =====
-- Go's `int64` and its bit pattern, `uint64(x)` and `int64(x)`.
use Prim.Native.Nat.{ℕ, suc, ◌+◌, ◌-◌, ◌^◌, ◌<◌}
use native.Mathlib.Omega.{arith}
use mathlib.Core.Path.{◌≡◌}
use mathlib.Core.Logic.{inl, inr}
use mathlib.Core.Bool.{Bool}
use kin.Base.Tests.{ltb, leb, ltb→lt, Bool-cases, if◌then◌else◌}

-- `negsuc n` is -(n + 1).
pub data ℤ : Type 0 where
  pos : ℕ → ℤ
  negsuc : ℕ → ℤ

abbrev pub pos_part : ℤ → ℕ
pos_part (pos n) = n
pos_part (negsuc n) = 0

abbrev pub neg_part : ℤ → ℕ
neg_part (pos n) = 0
neg_part (negsuc n) = suc n

abbrev pub ltb_ℤ : ℤ → ℤ → Bool
ltb_ℤ a b = ltb (pos_part a + neg_part b) (pos_part b + neg_part a)

abbrev pub leb_ℤ : ℤ → ℤ → Bool
leb_ℤ a b = leb (pos_part a + neg_part b) (pos_part b + neg_part a)

-- a - b, as an integer.
abbrev pub sub_ℕ : ℕ → ℕ → ℤ
sub_ℕ a b = if leb b a then pos (a - b) else negsuc (b - a - 1)

infixl 65 ◌+ℤ◌
unfoldable pub ◌+ℤ◌ : ℤ → ℤ → ℤ
a +ℤ b = sub_ℕ (pos_part a + pos_part b) (neg_part a + neg_part b)

pub +ℤ_parts :
    (a b : ℤ)
    → pos_part (a +ℤ b) + neg_part a + neg_part b ≡ neg_part (a +ℤ b) + pos_part a + pos_part b
unfolding ◌+ℤ◌
+ℤ_parts a b = ground arith

-- The values of an `int64`.
abbrev pub IsInt64 : ℤ → Type 0
IsInt64 (pos n) = n < 2 ^ 63
IsInt64 (negsuc n) = n < 2 ^ 63

unfoldable pub to_uint64 : ℤ → ℕ
to_uint64 (pos n) = n
to_uint64 (negsuc n) = 2 ^ 64 - 1 - n

unfoldable pub from_uint64 : ℕ → ℤ
from_uint64 w = if ltb w (2 ^ 63) then pos w else negsuc (2 ^ 64 - 1 - w)

pub from_uint64-to_uint64 : (z : ℤ) → IsInt64 z → from_uint64 (to_uint64 z) ≡ z
unfolding from_uint64 to_uint64
from_uint64-to_uint64 (pos n) h = ground arith
from_uint64-to_uint64 (negsuc n) h = ground arith

pub to_uint64-lt : (z : ℤ) → IsInt64 z → to_uint64 z < 256 ^ 8
unfolding to_uint64
to_uint64-lt (pos n) h = omega arith
to_uint64-lt (negsuc n) h = omega arith

pub from_uint64-IsInt64 : (w : ℕ) → w < 256 ^ 8 → IsInt64 (from_uint64 w)
unfolding from_uint64
from_uint64-IsInt64 w h = elim (Bool-cases (ltb w (2 ^ 63))) [
  | inl e ↦ rw e (ltb→lt w (2 ^ 63) e)
  | inr e ↦ rw e (ground arith)
]
