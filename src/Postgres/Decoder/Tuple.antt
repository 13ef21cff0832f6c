-- ===== src/Postgres/Decoder/Tuple.antt =====
-- decoder.rs, the tuple data: a count, then for each column a kind byte and for text a length.
use opencdc.Base.{ℕ, zero, suc, ◌+◌, ◌/◌, ◌%◌, Bool, true, false, List, [], ◌∷◌, ◌++◌}
use opencdc.Base.{ltb, leb, ◌==◌, if◌then◌else◌, length, Option, none, some, Bytes, Text, text}
use opencdc.Base.{Outcome, done, failed, ◌>>=◌}
use opencdc.Base.Int.{is_negative, unsigned, i16_half, i64_half}
use opencdc.Core.Error.{Error, invalid_message_format}
use opencdc.Wire.{index, slice}
use opencdc.Postgres.Decoder.Read.{read_i16_be, read_i32_be}

pub record TupleColumn : Type 0 where
  pub is_null : Bool
  pub is_unchanged_toast : Bool
  pub value : Option Bytes

abbrev pub null_column : TupleColumn
null_column = record { is_null = true; is_unchanged_toast = false; value = none }

abbrev pub toast_column : TupleColumn
toast_column = record { is_null = false; is_unchanged_toast = true; value = none }

abbrev pub text_column : Bytes → TupleColumn
text_column v = record { is_null = false; is_unchanged_toast = false; value = some v }

-- The text of `b as char`: the code point below 256.
abbrev pub char_text : ℕ → Text
char_text b = if ltb b 128 then b ∷ [] else (0xc0 + b / 64) ∷ (0x80 + b % 64) ∷ []

-- A 't' column, with the offset behind the kind byte.
unfoldable pub decode_text_column : Bytes → ℕ → Outcome Error (TupleColumn × ℕ)
decode_text_column bytes offset = do
  (raw_len, offset) ← read_i32_be bytes offset
  let len = unsigned i64_half raw_len
  if is_negative raw_len
      then failed (invalid_message_format (text "negative tuple value length"))
      else if ltb (length bytes) (offset + len)
      then failed (invalid_message_format (text "tuple value exceeds data length"))
      else (do value ← slice bytes offset (offset + len); done (text_column value, offset + len))

-- One round of the loop.
unfoldable pub decode_column : Bytes → ℕ → Outcome Error (TupleColumn × ℕ)
decode_column bytes offset =
    if leb (length bytes) offset
    then failed (invalid_message_format (text "truncated tuple data"))
    else do
      kind ← index bytes offset
      if kind == b'n'
          then done (null_column, offset + 1)
          else if kind == b'u'
          then done (toast_column, offset + 1)
          else if kind == b't'
          then decode_text_column bytes (offset + 1)
          else failed
              (invalid_message_format (text "unknown column kind '" ++ char_text kind ++ text "'"))

-- `for _ in 0..col_count`
unfoldable pub decode_columns : ℕ → Bytes → ℕ → Outcome Error (List TupleColumn × ℕ)
decode_columns zero bytes offset = done ([], offset)
decode_columns (suc count) bytes offset = do
  (column, offset) ← decode_column bytes offset
  (columns, offset) ← decode_columns count bytes offset
  done (column ∷ columns, offset)

unfoldable pub decode_tuple_data : Bytes → Outcome Error (List TupleColumn × ℕ)
decode_tuple_data bytes = do
  (col_count, offset) ← read_i16_be bytes 0
  decode_columns (unsigned i16_half col_count) bytes offset
