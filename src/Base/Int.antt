-- ===== src/Base/Int.antt =====
-- Signed integers over the native numbers, and the arithmetic of `i32`, which wraps modulo 2^32.
use wayland_macos.Base.Tests.{ltb, leb, if◌then◌else◌}
use Prim.Native.Nat.{ℕ, suc, ◌+◌, ◌-◌, ◌/◌, ◌%◌, ◌≤◌, ◌<◌}
use mathlib.Core.Path.{◌≡◌}
use mathlib.Core.Bool.{Bool}
use native.Mathlib.Omega.{arith}

-- `negsuc n` is -(n + 1).
pub data ℤ : Type 0 where
  pos : ℕ → ℤ
  negsuc : ℕ → ℤ

abbrev pub pos_part : ℤ → ℕ
pos_part (pos n) = n
pos_part (negsuc n) = 0

abbrev pub neg_part : ℤ → ℕ
neg_part (pos n) = 0
neg_part (negsuc n) = suc n

-- a - b, as an integer.
abbrev pub sub_ℕ : ℕ → ℕ → ℤ
sub_ℕ a b = if leb b a then pos (a - b) else negsuc (b - a - 1)

infixl 65 ◌+ℤ◌ ◌-ℤ◌
infix 50 ◌≤ℤ◌
unfoldable pub ◌+ℤ◌ : ℤ → ℤ → ℤ
a +ℤ b = sub_ℕ (pos_part a + pos_part b) (neg_part a + neg_part b)

unfoldable pub ◌-ℤ◌ : ℤ → ℤ → ℤ
a -ℤ b = sub_ℕ (pos_part a + neg_part b) (neg_part a + pos_part b)

abbrev pub ◌≤ℤ◌ : ℤ → ℤ → Type 0
a ≤ℤ b = pos_part a + neg_part b ≤ pos_part b + neg_part a

abbrev pub leb_ℤ : ℤ → ℤ → Bool
leb_ℤ a b = leb (pos_part a + neg_part b) (pos_part b + neg_part a)

abbrev pub ltb_ℤ : ℤ → ℤ → Bool
ltb_ℤ a b = ltb (pos_part a + neg_part b) (pos_part b + neg_part a)

abbrev pub max_ℤ : ℤ → ℤ → ℤ
max_ℤ a b = if leb_ℤ a b then b else a

-- Rust's `/` on signed integers, by a positive divisor: it truncates toward zero.
unfoldable pub quot_ℤ : ℤ → ℕ → ℤ
quot_ℤ (pos n) d = pos (n / d)
quot_ℤ (negsuc n) d = sub_ℕ 0 (suc n / d)

abbrev pub i32_mod : ℕ
i32_mod = 4294967296

abbrev pub i32_half : ℕ
i32_half = 2147483648

-- The residue of an integer modulo 2^32 in the range of `i32`.
unfoldable pub wrap_i32 : ℤ → ℤ
wrap_i32 (pos n) = let m = n % i32_mod in if ltb m i32_half then pos m else negsuc (i32_mod - 1 - m)
wrap_i32 (negsuc n) =
    let m = n % i32_mod in if ltb m i32_half then negsuc m else pos (i32_mod - 1 - m)

-- The values of `i32`.
abbrev pub IsI32 : ℤ → Type 0
IsI32 a = (pos_part a < i32_half) × (neg_part a ≤ i32_half)

infixl 65 ◌+i32◌ ◌-i32◌
unfoldable pub ◌+i32◌ : ℤ → ℤ → ℤ
unfolding wrap_i32 ◌+ℤ◌
a +i32 b = wrap_i32 (a +ℤ b)

unfoldable pub ◌-i32◌ : ℤ → ℤ → ℤ
unfolding wrap_i32 ◌-ℤ◌
a -i32 b = wrap_i32 (a -ℤ b)

-- `u32 as i32`: the same bits.
abbrev pub u32_as_i32 : ℕ → ℤ
u32_as_i32 n = if ltb n i32_half then pos n else negsuc (i32_mod - 1 - n)

pub +ℤ_parts :
    (a b : ℤ)
    → pos_part (a +ℤ b) + neg_part a + neg_part b ≡ neg_part (a +ℤ b) + pos_part a + pos_part b
unfolding ◌+ℤ◌
+ℤ_parts a b = ground arith

pub -ℤ_parts :
    (a b : ℤ)
    → pos_part (a -ℤ b) + neg_part a + pos_part b ≡ neg_part (a -ℤ b) + pos_part a + neg_part b
unfolding ◌-ℤ◌
-ℤ_parts a b = ground arith

pub eq_of_parts : (a b : ℤ) → pos_part a + neg_part b ≡ pos_part b + neg_part a → a ≡ b
eq_of_parts a b h = ground arith

-- Wrapping leaves a value of `i32` alone, and always gives one.
pub wrap_i32_id : (a : ℤ) → IsI32 a → wrap_i32 a ≡ a
unfolding wrap_i32
wrap_i32_id (pos n) h = ground arith
wrap_i32_id (negsuc n) h = ground arith

pub wrap_i32-IsI32 : (a : ℤ) → IsI32 (wrap_i32 a)
unfolding wrap_i32
wrap_i32-IsI32 (pos n) = ground arith
wrap_i32-IsI32 (negsuc n) = ground arith
