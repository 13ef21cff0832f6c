-- ===== src/Core/ParseInt.antt =====
-- `str::parse` for the integer types: an optional sign, then at least one decimal digit, and a value
-- in the type's range.
use opencdc.Base.{ℕ, ◌+◌, ◌-◌, ◌*◌, ◌^◌, ◌&&◌, Option, none, some, [], ◌∷◌, Text, text}
use opencdc.Base.{leb, ltb, ◌==◌, if◌then◌else◌, ◌≡◌, refl}
use opencdc.Base.Int.{ℤ, pos, negsuc, i32_half}

digits : ℕ → Text → Option ℕ
digits n [] = some n
digits n (c ∷ rest) = if leb b'0' c && leb c b'9' then digits (n * 10 + (c - b'0')) rest else none

-- The magnitude behind the sign.
magnitude : Text → Option ℕ
magnitude [] = none
magnitude (c ∷ rest) = digits 0 (c ∷ rest)

below : ℕ → Option ℕ → Option ℤ
below h none = none
below h (some n) = if ltb n h then some (pos n) else none

negated : ℕ → Option ℕ → Option ℤ
negated h none = none
negated h (some n) =
    if n == 0 then some (pos 0) else if leb n h then some (negsuc (n - 1)) else none

-- `h` is 2 ^ 31 for `i32` and 2 ^ 63 for `i64`.
unfoldable pub parse_signed : ℕ → Text → Option ℤ
unfolding digits magnitude below negated
parse_signed h [] = none
parse_signed h (c ∷ rest) =
    if c == b'-'
    then negated h (magnitude rest)
    else if c == b'+'
    then below h (magnitude rest)
    else below h (magnitude (c ∷ rest))

-- `u32`: a minus sign is no digit.
unfoldable pub parse_u32 : Text → Option ℤ
unfolding digits magnitude below
parse_u32 [] = none
parse_u32 (c ∷ rest) =
    if c == b'+' then below (2 ^ 32) (magnitude rest) else below (2 ^ 32) (magnitude (c ∷ rest))

parse_min : parse_signed i32_half (text "-2147483648") ≡ some (negsuc 2147483647)
unfolding parse_signed
parse_min = refl

parse_too_large : parse_signed i32_half (text "2147483648") ≡ none
unfolding parse_signed
parse_too_large = refl
