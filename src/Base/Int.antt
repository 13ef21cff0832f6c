-- ===== src/Base/Int.antt =====
-- Signed integers over the native numbers, under the library's names, and the two's complement
-- reading of machine words: the cast of a w-bit pattern to a signed type, and the cast back.
use Prim.Native.Nat.{ℕ, ◌+◌, ◌-◌, ◌*◌, ◌%◌, ◌^◌, ◌<◌}
use mathlib.Core.Path.{◌≡◌}
use mathlib.Core.Bool.{Bool, true, false}
use native.Mathlib.Omega.{arith}
use opencdc.Base.Tests.{ltb, leb, if◌then◌else◌}

-- `negsuc n` is -(n + 1).
pub data ℤ : Type 0 where
  pos : ℕ → ℤ
  negsuc : ℕ → ℤ

abbrev pub is_negative : ℤ → Bool
is_negative (pos n) = false
is_negative (negsuc n) = true

-- The pattern `v` of 2 * h values, read as a signed number: `h` is 2 ^ (w - 1).
abbrev pub signed : ℕ → ℕ → ℤ
signed h v = if ltb v h then pos v else negsuc (h + h - 1 - v)

-- The cast of a signed number to the unsigned type of 2 * h values.
abbrev pub unsigned : ℕ → ℤ → ℕ
unsigned h (pos n) = n % (h + h)
unsigned h (negsuc n) = h + h - 1 - n % (h + h)

abbrev pub i8_half : ℕ
i8_half = 2 ^ 7

abbrev pub i16_half : ℕ
i16_half = 2 ^ 15

abbrev pub i32_half : ℕ
i32_half = 2 ^ 31

abbrev pub i64_half : ℕ
i64_half = 2 ^ 63

pub unsigned-signed_i16 : (v : ℕ) → v < 2 ^ 16 → unsigned i16_half (signed i16_half v) ≡ v
unsigned-signed_i16 v l = ground arith

pub unsigned-signed_i32 : (v : ℕ) → v < 2 ^ 32 → unsigned i32_half (signed i32_half v) ≡ v
unsigned-signed_i32 v l = ground arith

-- The values of the signed type of 2 * h values.
abbrev pub InRange : ℕ → ℤ → Type 0
InRange h (pos n) = n < h
InRange h (negsuc n) = n < h

pub signed-unsigned_i16 : (z : ℤ) → InRange i16_half z → signed i16_half (unsigned i16_half z) ≡ z
signed-unsigned_i16 (pos n) h = ground arith
signed-unsigned_i16 (negsuc n) h = ground arith

pub signed-unsigned_i32 : (z : ℤ) → InRange i32_half z → signed i32_half (unsigned i32_half z) ≡ z
signed-unsigned_i32 (pos n) h = ground arith
signed-unsigned_i32 (negsuc n) h = ground arith

pub signed-unsigned_i64 : (z : ℤ) → InRange i64_half z → signed i64_half (unsigned i64_half z) ≡ z
signed-unsigned_i64 (pos n) h = ground arith
signed-unsigned_i64 (negsuc n) h = ground arith

pub signed-unsigned_i8 : (z : ℤ) → InRange i8_half z → signed i8_half (unsigned i8_half z) ≡ z
signed-unsigned_i8 (pos n) h = ground arith
signed-unsigned_i8 (negsuc n) h = ground arith

-- a - b, as an integer, and the sums and differences that the program makes of signed numbers.
abbrev pub sub_ℕ : ℕ → ℕ → ℤ
sub_ℕ a b = if leb b a then pos (a - b) else negsuc (b - a - 1)

abbrev pub pos_part : ℤ → ℕ
pos_part (pos n) = n
pos_part (negsuc n) = 0

abbrev pub neg_part : ℤ → ℕ
neg_part (pos n) = 0
neg_part (negsuc n) = n + 1

infixl 65 ◌+ℤ◌ ◌-ℤ◌
infixl 70 ◌*ℤ◌
unfoldable pub ◌+ℤ◌ : ℤ → ℤ → ℤ
a +ℤ b = sub_ℕ (pos_part a + pos_part b) (neg_part a + neg_part b)

unfoldable pub ◌-ℤ◌ : ℤ → ℤ → ℤ
a -ℤ b = sub_ℕ (pos_part a + neg_part b) (neg_part a + pos_part b)

unfoldable pub ◌*ℤ◌ : ℤ → ℕ → ℤ
a *ℤ k = sub_ℕ (pos_part a * k) (neg_part a * k)
