-- ===== src/Mysql/Row.antt =====
-- crates/opencdc-connector/src/mysql/binlog.rs: `read_row`, one row image of a rows event.
pub mod Safety
use opencdc.Base.{ℕ, zero, suc, ◌+◌, ◌*◌, ◌^◌, Bool, true, false, ◌&&◌, ◌||◌, Option, List, [], ◌∷◌}
use opencdc.Base.{
  leb, ltb, ◌==◌, if◌then◌else◌, length, take, drop, get_or, Bytes, Text, Outcome, done, ◌>>=◌,
}
use opencdc.Core.Json.{SerdeJson}
use opencdc.Wire.{index, slice, slice_from}
use opencdc.Wire.Utf8.{from_utf8_lossy}
use opencdc.Mysql.Packed.{le_u16, all_bits, bytes_for}
use opencdc.Mysql.Column.{column_data_length, decode_binlog_value, decode_length_encoded_string}

abbrev pub is_string : ℕ → Bool
is_string col_type = col_type == 15 || col_type == 253 || col_type == 254

abbrev pub is_blob : ℕ → Bool
is_blob col_type = col_type == 252 || col_type == 249 || col_type == 250 || col_type == 251

-- How many bytes hold the length of a blob.
abbrev pub blob_prefix : ℕ → ℕ
blob_prefix col_type =
    if col_type == 249 then 1 else if col_type == 252 then 2 else if col_type == 250 then 3 else 4

-- The length of a blob; that of the four-byte form is taken as 0.
unfoldable pub blob_size : ℕ → Bytes → ℕ → Outcome Text ℕ
blob_size col_type bytes pos =
    if col_type == 249
    then index bytes pos
    else if col_type == 252
    then le_u16 bytes pos
    else if col_type == 250
    then (do low ← le_u16 bytes pos; high ← index bytes (pos + 2); done (low + high * 2 ^ 16))
    else done 0

module _ (j : SerdeJson) (hex_encode : Bytes → Text) where
  open j use {Value, null, string}

  -- The value, and how far the position moves.
  unfoldable pub read_blob : Bytes → ℕ → ℕ → Outcome Text (Value × ℕ)
  read_blob bytes pos col_type =
      let prefix = blob_prefix col_type in
      if leb (pos + prefix) (length bytes)
      then (do
        size ← blob_size col_type bytes pos
        if leb (pos + prefix + size) (length bytes)
            then (do
              run ← slice bytes (pos + prefix) (pos + prefix + size)
              done (string (from_utf8_lossy run), prefix + size))
            else done (null, prefix))
      else done (null, prefix)

  -- A column without a fixed width, inside the data.
  unfoldable pub read_variable : Bytes → ℕ → ℕ → Outcome Text (Value × ℕ)
  read_variable bytes pos col_type =
      if is_string col_type
      then (do
        rest ← slice_from bytes pos
        let (len, s) = decode_length_encoded_string rest
        done (if ltb 0 len then (string s, len) else (null, 1)))
      else if is_blob col_type
      then read_blob bytes pos col_type
      else done (null, 1)

  -- One column that is not null: its value, and the position behind it.
  unfoldable pub read_column : Bytes → ℕ → ℕ → ℕ → Outcome Text (Value × ℕ)
  read_column bytes pos col_type meta =
      let byte_len = column_data_length col_type meta in
      if ltb 0 byte_len && leb (pos + byte_len) (length bytes)
      then (do
        run ← slice bytes pos (pos + byte_len)
        val ← decode_binlog_value j hex_encode run col_type meta
        done (val, pos + byte_len))
      else if byte_len == 0 && ltb pos (length bytes)
      then (do (val, n) ← read_variable bytes pos col_type; done (val, pos + n))
      else done (null, pos)

  -- The loop over the columns; `i` is the number of the first one left.
  unfoldable pub read_columns :
      Bytes → List Bool → List ℕ → List ℕ → ℕ → ℕ → Outcome Text (List Value × ℕ)
  read_columns bytes null_bits column_metas [] i pos = done ([], pos)
  read_columns bytes null_bits column_metas (col_type ∷ types) i pos = do
    (val, pos) ←
        if get_or null_bits i false
        then done (null, pos)
        else read_column bytes pos col_type (get_or column_metas i 0)
    (vals, pos) ← read_columns bytes null_bits column_metas types (i + 1) pos
    done (val ∷ vals, pos)

  -- The values, and the number of bytes taken: 0 where there is no row.
  unfoldable pub read_row : Bytes → List ℕ → List ℕ → Outcome Text (List Value × ℕ)
  read_row bytes column_types column_metas =
      let null_bytes = bytes_for (length column_types) in
      if length bytes == 0 || length column_types == 0
      then done ([], 0)
      else if ltb (length bytes) null_bytes
      then done ([], 0)
      else (do
        run ← slice bytes 0 null_bytes
        read_columns bytes (take (length column_types) (all_bits run)) column_metas column_types 0
            null_bytes)
