-- ===== src/Mysql/Snapshot/Query.antt =====
-- crates/opencdc-connector/src/mysql/snapshot.rs: `query_table`, `discover_tables` and `run`.
use opencdc.Base.{
  ℕ, zero, suc, ◌+◌, Bool, true, Option, none, some, List, [], ◌∷◌, ◌++◌, ◌==◌, if◌then◌else◌, drop,
  Bytes, Text, text, Map, lookup, insert, Outcome, done, failed, ◌>>=◌,
}
use opencdc.Core.Error.{Error, other}
use opencdc.Core.Format.{decimal}
use opencdc.Core.Json.{SerdeJson}
use opencdc.Mysql.Config.{MySqlConnectorConfig}
use opencdc.Mysql.Packets.{Tcp}
use opencdc.Mysql.Snapshot.{
  PacketReader, read_fails, packet_then, server_error, parse_greeting, decode_length_str,
  next_packet, skip_packets, send_auth_packet, send_query, read_ok_packet,
}

-- `format!("col_{}", i)`
abbrev pub column_key : ℕ → Text
column_key i = text "col_" ++ decimal i

-- A packet that ends the rows: an empty one, or one that begins with 0xfe.
unfoldable pub ends_rows : Bytes → Bool
ends_rows [] = true
ends_rows (first ∷ rest) = first == 0xfe

-- `table.splitn(2, '.')`: what is before the first point, and what is behind it.
unfoldable pub split_point : Text → Option (Text × Text)
split_point [] = none
split_point (c ∷ rest) =
    let later = split_point rest in
    if c == b'.'
    then some ([], rest)
    else elim later [ none ↦ none | some (a, b) ↦ some (c ∷ a, b) ]

-- The database and the table of an entry of the list.
unfoldable pub table_of : MySqlConnectorConfig → Text → Text × Text
table_of config table = elim (split_point table) [
  | none ↦ (config.database, table)
  | some (db, tbl) ↦ (db, tbl)
]

module _ (j : SerdeJson) where
  open j use {Value, null, string, object, as_str}

  -- The loop `for i in 0..col_count` over the bytes of a row, `rest` of them left: the columns that
  -- are still to come, and the number of the next one.
  unfoldable pub read_cells : ℕ → ℕ → Bytes → Map Value → Outcome Error (Map Value)
  read_cells zero i rest row = done row
  read_cells (suc n) i [] row = done row
  read_cells (suc n) i (b ∷ rest) row =
      if b == 0xfb then read_cells n (i + 1) rest (insert (column_key i) null row) else do
        (taken, s) ← decode_length_str (b ∷ rest)
        read_cells n (i + 1) (drop taken (b ∷ rest)) (insert (column_key i) (string s) row)

  -- `row.get(key).and_then(|v| v.as_str())`
  abbrev and_as_str : Option Value → Option Text
  and_as_str none = none
  and_as_str (some v) = as_str v

  unfoldable pub get_text : Text → Map Value → Option Text
  get_text key row = and_as_str (lookup key row)

  -- `Some(format!("{}.{}", schema, name))`, and none where a `?` before it finds none.
  abbrev table_name : Option Text → Option Text → Option Text
  table_name none name = none
  table_name (some schema) none = none
  table_name (some schema) (some name) = some (schema ++ (text "." ++ name))

  abbrev push_some : Option Text → List Text → List Text
  push_some none names = names
  push_some (some name) names = name ∷ names

  -- `filter_map`
  unfoldable pub listed_tables : List (Map Value) → List Text
  listed_tables [] = []
  listed_tables (row ∷ rows) =
      push_some (table_name (get_text (text "TABLE_SCHEMA") row) (get_text (text "TABLE_NAME") row))
        (listed_tables rows)

  -- The loop over the row packets.
  unfoldable pub read_text_rows : ℕ → PacketReader → Outcome Error (List (Map Value) × PacketReader)
  read_text_rows col_count (read_fails e) = failed (other e)
  read_text_rows col_count (packet_then payload packets) =
      let more = read_text_rows col_count packets in
      if ends_rows payload then done ([], packets) else do
        row ← read_cells col_count 0 payload []
        (rows, packets) ← more
        done (row ∷ rows, packets)

  -- What `query_table` does with the answer.
  unfoldable pub query_rows : PacketReader → Outcome Error (List (Map Value) × PacketReader)
  query_rows r = do (resp, r) ← next_packet r; answer_rows resp r
    where
      answer_rows : Bytes → PacketReader → Outcome Error (List (Map Value) × PacketReader)
      answer_rows [] r = done ([], r)
      answer_rows (first ∷ rest) r =
          if first == 0xff
          then server_error (text "mysql query error: ") (first ∷ rest)
          else do r ← skip_packets first r; (eof, r) ← next_packet r; read_text_rows first r

  module _ (t : Tcp) where
    open t use {Reader, Writer}

    unfoldable pub query_table :
        Text → PacketReader × Writer → Outcome Error (List (Map Value) × PacketReader × Writer)
    query_table query (r, w) = do
      w ← send_query t query w
      (rows, r) ← query_rows r
      done (rows, r, w)

    -- What `discover_tables` and `run` do with a new connection before their first query.
    unfoldable pub log_in :
        (Bytes → Bytes)
        → MySqlConnectorConfig
        → PacketReader × Writer
        → Outcome Error (PacketReader × Writer)
    log_in sha1 config (r, w) = do
      (greeting, r) ← next_packet r
      auth_data ← parse_greeting greeting
      w ← send_auth_packet t sha1 config auth_data w
      r ← read_ok_packet r
      done (r, w)
