-- ===== src/Mysql/Column.antt =====
-- crates/opencdc-connector/src/mysql/column.rs: a column's bytes as a JSON value, by its type.
-- `hex_encode` is `hex::encode`. Of a `BIT` value the bytes behind the eighth are shifted as an
-- optimised build shifts them, by the distance modulo 64.
mod Dates
pub mod Safety
unfoldable pub use Dates.*
use Prim.Native.Nat.{bit_and, bit_or}
use opencdc.Base.{
  ℕ, zero, suc, ◌+◌, ◌-◌, ◌*◌, ◌/◌, ◌%◌, ◌^◌, ◌<◌, Bool, true, false, not, ◌||◌, ◌&&◌, Option, none,
  some, List, [], ◌∷◌,
}
use opencdc.Base.{
  leb, ltb, ◌==◌, if◌then◌else◌, length, take, drop, Bytes, Text, text, Outcome, done, ◌>>=◌, ◌>>◌,
}
use opencdc.Base.Int.{ℤ, pos, signed, i8_half, i16_half}
use opencdc.Core.Format.{decimal}
use opencdc.Core.Json.{SerdeJson}
use opencdc.Wire.{index}
use opencdc.Wire.Utf8.{from_utf8_lossy}
use opencdc.Mysql.Packed.{le_u16, le_u32, le_u64}

-- The length byte, then that many bytes; an empty text where they are not there.
unfoldable pub decode_length_encoded_string : Bytes → ℕ × Text
decode_length_encoded_string [] = (1, [])
decode_length_encoded_string (len ∷ rest) =
    if ltb (length rest) len then (1, []) else (1 + len, from_utf8_lossy (take len rest))

-- `column_data_length` of binlog.rs: the width of a column of fixed width, else 0.
unfoldable pub column_data_length : ℕ → ℕ → ℕ
column_data_length col_type meta =
    if col_type == 1
    then 1
    else if col_type == 2 || col_type == 13
    then 2
    else if col_type == 3
        || col_type == 9
        || col_type == 4
        || col_type == 10
        || col_type == 11
        || col_type == 7
    then 4
    else if col_type == 8 || col_type == 5 || col_type == 12
    then 8
    else if col_type == 16
    then (meta / 2 ^ 8 * 8 + meta % 2 ^ 8 + 7) / 8
    else if col_type == 246
    then meta / 2 ^ 8 + 4
    else if col_type == 17 || col_type == 18 || col_type == 19
    then 5 + (meta % 2 ^ 8 + 1) / 2
    else 0

-- The loop over the bytes of a BIT value.
unfoldable pub or_bytes : ℕ → Bytes → ℕ → ℕ
or_bytes i [] val = val
or_bytes i (b ∷ rest) val = or_bytes (i + 1) rest (bit_or val (b * 2 ^ (i * 8 % 64) % 2 ^ 64))

-- `meta & 0x80 != 0`
abbrev sign_flag : ℕ → Bool
sign_flag meta = not (bit_and meta 0x80 == 0)

module _ (j : SerdeJson) (hex_encode : Bytes → Text) where
  open j use {Value, string, integer, from_str, from_str_f64, f32_of, f64_of}

  abbrev value_or : Value → Option Value → Value
  value_or d none = d
  value_or d (some v) = v

  -- An unsigned 64-bit value: a number where `i64` has it, else its decimal text.
  abbrev unsigned_value : ℕ → Value
  unsigned_value val = if ltb (2 ^ 63 - 1) val then string (decimal val) else integer (pos val)

  unfoldable pub decode_decimal : Bytes → Value
  decode_decimal [] = integer (pos 0)
  decode_decimal (b ∷ rest) =
      let s = from_utf8_lossy (b ∷ rest) in value_or (string s) (from_str_f64 s)

  unfoldable pub decode_timestamp2 : Bytes → Outcome Text Value
  decode_timestamp2 bytes =
      if ltb (length bytes) 4
      then done (integer (pos 0))
      else (do secs ← le_u32 bytes 0; done (integer (pos secs)))

  -- The integer arms.
  unfoldable pub decode_integer : Bytes → ℕ → ℕ → Outcome Text Value
  decode_integer bytes col_type meta =
      if col_type == 1
      then (do
        b ← index bytes 0
        done (integer (if sign_flag meta then signed i8_half b else pos b)))
      else if col_type == 2
      then (do
        val ← le_u16 bytes 0
        done (integer (if sign_flag meta then signed i16_half val else pos val)))
      else if col_type == 3 || col_type == 9
      then (do val ← le_u32 bytes 0; done (integer (pos val)))
      else (do val ← le_u64 bytes 0; done (unsigned_value val))

  -- The arms for dates and times.
  unfoldable pub decode_temporal : Bytes → ℕ → ℕ → Outcome Text Value
  decode_temporal bytes col_type meta =
      if col_type == 10
      then (do days ← le_u32 bytes 0; done (string (date_text days)))
      else if col_type == 12
      then (do s ← decode_datetime bytes; done (string s))
      else if col_type == 18
      then (do s ← decode_datetime2 bytes (meta % 2 ^ 8); done (string s))
      else if col_type == 7
      then (do secs ← le_u32 bytes 0; done (integer (pos secs)))
      else decode_timestamp2 bytes

  unfoldable pub decode_binlog_value : Bytes → ℕ → ℕ → Outcome Text Value
  decode_binlog_value bytes col_type meta =
      if col_type == 1 || col_type == 2 || col_type == 3 || col_type == 9 || col_type == 8
      then decode_integer bytes col_type meta
      else if col_type == 4
      then (do le_u32 bytes 0; done (f32_of (take 4 bytes)))
      else if col_type == 5
      then (do le_u64 bytes 0; done (f64_of (take 8 bytes)))
      else if col_type == 10 || col_type == 12 || col_type == 18 || col_type == 7 || col_type == 17
      then decode_temporal bytes col_type meta
      else if col_type == 254 || col_type == 15 || col_type == 253
      then done (string (decode_length_encoded_string bytes).1)
      else if leb 249 col_type && leb col_type 252
      then done (string (hex_encode bytes))
      else if col_type == 16
      then done
          (unsigned_value (or_bytes 0 (take ((meta / 2 ^ 8 * 8 + meta % 2 ^ 8 + 7) / 8) bytes) 0))
      else if col_type == 245
      then (let s = from_utf8_lossy bytes in done (value_or (string s) (from_str s)))
      else if col_type == 247 || col_type == 248
      then (do b ← index bytes 0; done (integer (pos b)))
      else if col_type == 246
      then done (decode_decimal bytes)
      else if col_type == 13
      then (do b ← index bytes 0; done (integer (pos (b + 1900))))
      else done (string (hex_encode bytes))
