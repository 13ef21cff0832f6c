-- ===== src/Core/Format.antt =====
-- Rust's formatting of integers: `{}`, and `{:0w}`, which fills with zeros behind the sign.
use opencdc.Base.{ℕ, zero, suc, ◌+◌, ◌-◌, ◌/◌, ◌%◌, true, false, [], ◌∷◌, ◌++◌, Text, text}
use opencdc.Base.{ltb, if◌then◌else◌, length, replicate, ◌≡◌, refl}
use opencdc.Base.Int.{ℤ, pos, negsuc}

-- The fuel bounds the number of digits; 20 are enough for 64 bits.
digits_from : ℕ → ℕ → Text
digits_from zero n = []
digits_from (suc f) n = elim (ltb n 10) [
  | true ↦ (b'0' + n) ∷ []
  | false ↦ digits_from f (n / 10) ++ ((b'0' + n % 10) ∷ [])
]

unfoldable pub decimal : ℕ → Text
unfolding digits_from
decimal n = digits_from 20 n

fill : ℕ → Text → Text
fill w s = replicate (w - length s) b'0' ++ s

unfoldable pub padded : ℕ → ℤ → Text
unfolding fill decimal
padded w (pos n) = fill w (decimal n)
padded w (negsuc n) = b'-' ∷ fill (w - 1) (decimal (suc n))

-- `{}` of a signed number
unfoldable pub shown : ℤ → Text
unfolding padded
shown z = padded 0 z

-- `/` and `%` of signed numbers by a positive one, which round towards zero.
abbrev pub negated : ℕ → ℤ
negated zero = pos 0
negated (suc m) = negsuc m

abbrev pub quotient : ℤ → ℕ → ℤ
quotient (pos n) k = pos (n / k)
quotient (negsuc n) k = negated (suc n / k)

abbrev pub remainder : ℤ → ℕ → ℤ
remainder (pos n) k = pos (n % k)
remainder (negsuc n) k = negated (suc n % k)

unfoldable pub hex_digit : ℕ → ℕ
hex_digit d = if ltb d 10 then b'0' + d else 87 + d

-- `{:02x}` of a byte
unfoldable pub hex2 : ℕ → Text
unfolding hex_digit
hex2 b = hex_digit (b / 16) ∷ hex_digit (b % 16) ∷ []

padded_negative : padded 4 (negsuc 4) ≡ text "-005"
unfolding padded
padded_negative = refl

padded_month : padded 2 (pos 7) ≡ text "07"
unfolding padded
padded_month = refl
