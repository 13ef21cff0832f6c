-- ===== src/Postgres/Decoder/Read.antt =====
-- decoder.rs, the readers at the end of the file: big-endian integers and C strings at an offset.
use opencdc.Base.{ℕ, ◌+◌, ◌*◌, ◌^◌, [], ◌∷◌}
use opencdc.Base.{◌==◌, if◌then◌else◌, drop, Bytes, Text, Outcome, done, ◌>>=◌}
use opencdc.Base.Int.{ℤ, signed, i16_half, i32_half, i64_half}
use opencdc.Core.Error.{Error}
use opencdc.Wire.{index, slice, be2, be4}
use opencdc.Wire.Utf8.{from_utf8_lossy}

unfoldable pub read_i16_be : Bytes → ℕ → Outcome Error (ℤ × ℕ)
unfolding index
read_i16_be bytes offset = do
  a ← index bytes offset
  b ← index bytes (offset + 1)
  done (signed i16_half (be2 a b), offset + 2)

unfoldable pub read_i32_be : Bytes → ℕ → Outcome Error (ℤ × ℕ)
unfolding index
read_i32_be bytes offset = do
  a ← index bytes offset
  b ← index bytes (offset + 1)
  c ← index bytes (offset + 2)
  d ← index bytes (offset + 3)
  done (signed i32_half (be4 a b c d), offset + 4)

unfoldable pub read_i64_be : Bytes → ℕ → Outcome Error (ℤ × ℕ)
unfolding index
read_i64_be bytes offset = do
  a ← index bytes offset
  b ← index bytes (offset + 1)
  c ← index bytes (offset + 2)
  d ← index bytes (offset + 3)
  e ← index bytes (offset + 4)
  f ← index bytes (offset + 5)
  g ← index bytes (offset + 6)
  h ← index bytes (offset + 7)
  done (signed i64_half (be4 a b c d * 2 ^ 32 + be4 e f g h), offset + 8)

-- `while *offset < data.len() && data[*offset] != 0 { *offset += 1; }`, on the bytes from the offset.
unfoldable pub string_end : Bytes → ℕ → ℕ
string_end [] offset = offset
string_end (b ∷ rest) offset =
    let later = string_end rest (offset + 1) in if b == 0 then offset else later

-- The offset ends one past the terminator, also where the terminator is missing.
unfoldable pub read_string : Bytes → ℕ → Outcome Error (Text × ℕ)
unfolding string_end
read_string bytes start = do
  let offset = string_end (drop start bytes) start
  piece ← slice bytes start offset
  done (from_utf8_lossy piece, offset + 1)
