-- ===== src/Wire/Utf8.antt =====
-- `String::from_utf8_lossy`: each maximal ill-formed piece becomes one U+FFFD.
-- Code outside the repository's own files is not read here: this is the documented behaviour of
-- Rust's standard library, on the table of well-formed UTF-8 sequences.
use opencdc.Base.{ℕ, zero, suc, ◌<◌, ◌≡◌, refl, ap, Bool, true, false, ◌&&◌, ◌||◌, [], ◌∷◌, ◌++◌}
use opencdc.Base.{leb, ltb, ◌==◌, if◌then◌else◌, get_or, take, All, Bytes, Text, lt→ltb}

abbrev between : ℕ → ℕ → ℕ → Bool
between lo hi b = leb lo b && leb b hi

abbrev continues : ℕ → Bool
continues b = between 0x80 0xbf b

-- Whether the second byte `c` may follow the lead byte `b` of three or four bytes.
second_of_three : ℕ → ℕ → Bool
second_of_three b c =
    (b == 0xe0 && between 0xa0 0xbf c)
    || (between 0xe1 0xec b && continues c)
    || (b == 0xed && between 0x80 0x9f c)
    || (between 0xee 0xef b && continues c)

second_of_four : ℕ → ℕ → Bool
second_of_four b c =
    (b == 0xf0 && between 0x90 0xbf c)
    || (between 0xf1 0xf3 b && continues c)
    || (b == 0xf4 && between 0x80 0x8f c)

-- How many of the bytes `r` behind the lead byte `b` its piece takes, and whether it is a character.
-- A byte behind the end counts as 0, which continues nothing.
piece : ℕ → Bytes → ℕ × Bool
unfolding second_of_three second_of_four
piece b r =
    if ltb b 0x80
    then (0, true)
    else if between 0xc2 0xdf b
    then if continues (get_or r 0 0) then (1, true) else (0, false)
    else if between 0xe0 0xef b
    then if second_of_three b (get_or r 0 0)
      then if continues (get_or r 1 0) then (2, true) else (1, false)
      else (0, false)
    else if between 0xf0 0xf4 b
    then if second_of_four b (get_or r 0 0)
      then if continues (get_or r 1 0)
        then if continues (get_or r 2 0) then (3, true) else (2, false)
        else (1, false)
      else (0, false)
    else (0, false)

abbrev replacement : Text
replacement = 0xef ∷ 0xbf ∷ 0xbd ∷ []

-- The first `skip` bytes belong to the piece before.
lossy_from : ℕ → Bytes → Text
lossy_from skip [] = []
lossy_from (suc skip) (b ∷ r) = lossy_from skip r
lossy_from zero (b ∷ r) =
    (if (piece b r).1 then b ∷ take (piece b r).0 r else replacement) ++ lossy_from (piece b r).0 r

unfoldable pub from_utf8_lossy : Bytes → Text
unfolding lossy_from piece
from_utf8_lossy = lossy_from 0

piece_ascii : (b : ℕ) (r : Bytes) → b < 128 → piece b r ≡ (0, true)
unfolding piece
piece_ascii b r h = rw (lt→ltb _ _ h)

lossy_from_ascii : (s : Bytes) → All (λ b. b < 128) s → lossy_from 0 s ≡ s
unfolding lossy_from
lossy_from_ascii [] h = refl
lossy_from_ascii (b ∷ r) h = rw (piece_ascii b r h.0) (ap (λ t. b ∷ t) (lossy_from_ascii r h.1))

-- ASCII bytes are read as they stand.
pub from_utf8_lossy_ascii : (s : Bytes) → All (λ b. b < 128) s → from_utf8_lossy s ≡ s
unfolding from_utf8_lossy
from_utf8_lossy_ascii s h = lossy_from_ascii s h

lossy_euro : from_utf8_lossy (0x41 ∷ 0xe2 ∷ 0x82 ∷ 0xac ∷ []) ≡ 0x41 ∷ 0xe2 ∷ 0x82 ∷ 0xac ∷ []
unfolding from_utf8_lossy
lossy_euro = refl

lossy_cut : from_utf8_lossy (0xe2 ∷ 0x82 ∷ 0x41 ∷ []) ≡ 0xef ∷ 0xbf ∷ 0xbd ∷ 0x41 ∷ []
unfolding from_utf8_lossy
lossy_cut = refl
