-- ===== src/Postgres/Types.antt =====
-- crates/opencdc-connector/src/postgres/types.rs: a column's text as a JSON value, by its type's oid.
use opencdc.Base.{ℕ, ◌||◌, Option, none, some, Bytes, text, same, ◌==◌, if◌then◌else◌}
use opencdc.Base.Int.{ℤ, i32_half, i64_half}
use opencdc.Core.Json.{SerdeJson}
use opencdc.Core.ParseInt.{parse_signed, parse_u32}
use opencdc.Wire.Utf8.{from_utf8_lossy}

module _ (j : SerdeJson) where
  open j use {Value, null, bool, string, integer, from_str, parse_f32, parse_f64}

  abbrev integer_or_null : Option ℤ → Value
  integer_or_null none = null
  integer_or_null (some z) = integer z

  abbrev value_or : Value → Option Value → Value
  value_or d none = d
  value_or d (some v) = v

  -- The arms that give the text as it stands (numeric, text, varchar, bpchar, uuid, timestamps,
  -- dates, times, bytea) are the same as the last one.
  unfoldable pub pg_type_to_json : Bytes → ℕ → Value
  pg_type_to_json raw type_oid =
      let s = from_utf8_lossy raw in
      if type_oid == 16
      then bool (same s (text "t") || same s (text "true"))
      else if type_oid == 21 || type_oid == 23
      then integer_or_null (parse_signed i32_half s)
      else if type_oid == 20 || type_oid == 28
      then integer_or_null (parse_signed i64_half s)
      else if type_oid == 700
      then value_or null (parse_f32 s)
      else if type_oid == 701
      then value_or null (parse_f64 s)
      else if type_oid == 114 || type_oid == 3802
      then value_or (string s) (from_str s)
      else if type_oid == 26
      then integer_or_null (parse_u32 s)
      else string s
