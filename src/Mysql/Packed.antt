-- ===== src/Mysql/Packed.antt =====
-- crates/opencdc-connector/src/mysql/binlog.rs: length-encoded integers and bit sets. The code joins
-- disjoint bytes by `|`, which is their sum.
pub mod RoundTrip
use opencdc.Base.{
  ℕ, zero, suc, ◌+◌, ◌*◌, ◌/◌, ◌%◌, ◌^◌, Bool, true, false, ◌||◌, List, [], ◌∷◌, ◌++◌,
}
use opencdc.Base.{ltb, ◌==◌, if◌then◌else◌, length, take, Bytes, Text, Outcome, done, ◌>>=◌}
use opencdc.Wire.{index, slice, le2, le4}

-- `u16::from_le_bytes([data[i], data[i + 1]])` and its like
unfoldable pub le_u16 : Bytes → ℕ → Outcome Text ℕ
le_u16 bytes i = do a ← index bytes i; b ← index bytes (i + 1); done (le2 a b)

unfoldable pub le_u32 : Bytes → ℕ → Outcome Text ℕ
le_u32 bytes i = do
  a ← index bytes i
  b ← index bytes (i + 1)
  c ← index bytes (i + 2)
  d ← index bytes (i + 3)
  done (le4 a b c d)

unfoldable pub le_u64 : Bytes → ℕ → Outcome Text ℕ
le_u64 bytes i = do low ← le_u32 bytes i; high ← le_u32 bytes (i + 4); done (low + high * 2 ^ 32)

unfoldable pub read_packed_u48 : Bytes → ℕ × ℕ
read_packed_u48 (a ∷ b ∷ c ∷ d ∷ e ∷ f ∷ rest) = (le4 a b c d + le2 e f * 2 ^ 32, 6)
read_packed_u48 bytes = (0, length bytes)

-- The value, and how many bytes it took.
unfoldable pub read_packed_int : Bytes → Outcome Text (ℕ × ℕ)
read_packed_int [] = done (0, 0)
read_packed_int (b ∷ rest) =
    if ltb b 251
    then done (b, 1)
    else if b == 251
    then done (0, 1)
    else if b == 252
    then (do val ← le_u16 (b ∷ rest) 1; done (val, 3))
    else if b == 253
    then (do low ← le_u16 (b ∷ rest) 1; high ← index (b ∷ rest) 3; done (low + high * 2 ^ 16, 4))
    else if b == 254
    then (do val ← le_u64 (b ∷ rest) 1; done (val, 9))
    else done (0, 0)

-- The bits of a byte, the lowest first, and of a run of bytes.
unfoldable pub byte_bits : ℕ → List Bool
byte_bits b =
    (b % 2 == 1)
    ∷ (b / 2 % 2 == 1)
    ∷ (b / 4 % 2 == 1)
    ∷ (b / 8 % 2 == 1)
    ∷ (b / 16 % 2 == 1)
    ∷ (b / 32 % 2 == 1)
    ∷ (b / 64 % 2 == 1)
    ∷ (b / 128 % 2 == 1)
    ∷ []

unfoldable pub all_bits : Bytes → List Bool
unfolding byte_bits
all_bits [] = []
all_bits (b ∷ rest) = byte_bits b ++ all_bits rest

-- `n.div_ceil(8)`
abbrev pub bytes_for : ℕ → ℕ
bytes_for n = (n + 7) / 8

-- The bits, the count, and how many bytes they took.
unfoldable pub read_bitset : Bytes → Outcome Text (List Bool × ℕ × ℕ)
read_bitset bytes = do
  (col_count, n) ← read_packed_int bytes
  let total = n + bytes_for col_count
  if col_count == 0 || n == 0
      then done ([], 0, 0)
      else if ltb (length bytes) total
      then done ([], col_count, total)
      else (do run ← slice bytes n total; done (take col_count (all_bits run), col_count, total))
