-- ===== src/Base/Int.antt =====
-- Signed integers over the native numbers, and Go's `int64`: conversions that wrap around and
-- subtractions of times that saturate.
use Prim.Native.Nat.{ℕ, suc, ◌+◌, ◌-◌, ◌*◌, ◌%◌, ◌≤◌, ◌<◌}
use mathlib.Core.Path.{◌≡◌, refl}
use mathlib.Core.Bool.{Bool}
use native.Mathlib.Omega.{arith}
use otel_tail_sampler.Base.Bools.{ltb, leb, ◌==◌, if◌then◌else◌}

-- `negsuc n` is -(n + 1).
pub data ℤ : Type 0 where
  pos : ℕ → ℤ
  negsuc : ℕ → ℤ

abbrev pub pos_part : ℤ → ℕ
pos_part (pos n) = n
pos_part (negsuc n) = 0

abbrev pub neg_part : ℤ → ℕ
neg_part (pos n) = 0
neg_part (negsuc n) = suc n

-- a - b, as an integer.
abbrev pub sub_ℕ : ℕ → ℕ → ℤ
sub_ℕ a b = if leb b a then pos (a - b) else negsuc (b - a - 1)

infixl 65 ◌+ℤ◌ ◌-ℤ◌
infixl 70 ◌*ℤ◌
infix 50 ◌≤ℤ◌ ◌<ℤ◌
unfoldable pub ◌+ℤ◌ : ℤ → ℤ → ℤ
a +ℤ b = sub_ℕ (pos_part a + pos_part b) (neg_part a + neg_part b)

unfoldable pub ◌-ℤ◌ : ℤ → ℤ → ℤ
a -ℤ b = sub_ℕ (pos_part a + neg_part b) (neg_part a + pos_part b)

unfoldable pub ◌*ℤ◌ : ℤ → ℤ → ℤ
a *ℤ b =
    sub_ℕ (pos_part a * pos_part b + neg_part a * neg_part b)
      (pos_part a * neg_part b + neg_part a * pos_part b)

abbrev pub ◌≤ℤ◌ : ℤ → ℤ → Type 0
a ≤ℤ b = pos_part a + neg_part b ≤ pos_part b + neg_part a

abbrev pub ◌<ℤ◌ : ℤ → ℤ → Type 0
a <ℤ b = pos_part a + neg_part b < pos_part b + neg_part a

abbrev pub ltb_ℤ : ℤ → ℤ → Bool
ltb_ℤ a b = ltb (pos_part a + neg_part b) (pos_part b + neg_part a)

abbrev pub eqb_ℤ : ℤ → ℤ → Bool
eqb_ℤ a b = pos_part a + neg_part b == pos_part b + neg_part a

pub eq_of_parts : (a b : ℤ) → pos_part a + neg_part b ≡ pos_part b + neg_part a → a ≡ b
eq_of_parts a b h = ground arith

pub +ℤ_parts :
    (a b : ℤ)
    → pos_part (a +ℤ b) + neg_part a + neg_part b ≡ neg_part (a +ℤ b) + pos_part a + pos_part b
unfolding ◌+ℤ◌
+ℤ_parts a b = ground arith

pub -ℤ_parts :
    (a b : ℤ)
    → pos_part (a -ℤ b) + neg_part a + pos_part b ≡ neg_part (a -ℤ b) + pos_part a + neg_part b
unfolding ◌-ℤ◌
-ℤ_parts a b = ground arith

pub ruleset int_laws = (arith, +ℤ_parts, -ℤ_parts, eq_of_parts)

-- 2 ^ 63 and 2 ^ 64.
abbrev pub i64_half : ℕ
i64_half = 9223372036854775808

abbrev pub u64_mod : ℕ
u64_mod = 18446744073709551616

-- The values of an `int64`.
abbrev pub IsInt64 : ℤ → Type 0
IsInt64 z = (pos_part z < i64_half) × (neg_part z ≤ i64_half)

-- A residue as a signed number: the top half of the range is negative.
signed : ℕ → ℤ
signed r = if ltb r i64_half then pos r else negsuc (u64_mod - r - 1)

-- The low 64 bits.
unfoldable pub residue64 : ℤ → ℕ
residue64 (pos n) = n % u64_mod
residue64 (negsuc n) = u64_mod - 1 - n % u64_mod

-- The conversion to `int64` keeps the low 64 bits.
unfoldable pub wrap64 : ℤ → ℤ
unfolding signed residue64
wrap64 z = signed (residue64 z)

-- `Time.Sub` clips its result to the range of a `Duration`.
unfoldable pub saturate64 : ℤ → ℤ
saturate64 (pos n) = if ltb n i64_half then pos n else pos (i64_half - 1)
saturate64 (negsuc n) = if ltb n i64_half then negsuc n else negsuc (i64_half - 1)

pub wrap64-IsInt64 : (z : ℤ) → IsInt64 (wrap64 z)
unfolding wrap64
wrap64-IsInt64 (pos n) = ground arith
wrap64-IsInt64 (negsuc n) = ground arith

pub wrap64_id : (z : ℤ) → IsInt64 z → wrap64 z ≡ z
unfolding wrap64
wrap64_id (pos n) h = ground arith
wrap64_id (negsuc n) h = ground arith

pub saturate64_id : (z : ℤ) → IsInt64 z → saturate64 z ≡ z
unfolding saturate64
saturate64_id (pos n) h = ground arith
saturate64_id (negsuc n) h = ground arith

pub residue64-wrap64 : (z : ℤ) → residue64 (wrap64 z) ≡ residue64 z
unfolding wrap64
residue64-wrap64 (pos n) = ground arith
residue64-wrap64 (negsuc n) = ground arith

-- Addition that wraps around is addition of the low bits.
pub residue64-+ℤ : (a b : ℤ) → residue64 (a +ℤ b) ≡ (residue64 a + residue64 b) % u64_mod
unfolding residue64 ◌+ℤ◌
residue64-+ℤ (pos a) (pos b) = ground arith
residue64-+ℤ (pos a) (negsuc b) = ground arith
residue64-+ℤ (negsuc a) (pos b) = ground arith
residue64-+ℤ (negsuc a) (negsuc b) = ground arith

zero_time_test : wrap64 (negsuc 62135596799999999999) ≡ negsuc 6795364578871345151
unfolding wrap64
zero_time_test = refl
