-- ===== src/Mysql/Events.antt =====
-- crates/opencdc-connector/src/mysql/binlog.rs: the binlog events and their parsers, as steps on the
-- part of `BinlogClient` that they change. A UUID is its 16 bytes.
pub mod Rows
pub mod Tables
use opencdc.Base.{
  ℕ, zero, suc, ◌+◌, ◌*◌, ◌^◌, Bool, true, false, not, ◌&&◌, ◌||◌, Option, none, some, List, [],
  ◌∷◌, ◌++◌,
}
use opencdc.Base.{
  leb, ltb, ◌==◌, if◌then◌else◌, length, take, drop, replicate, Bytes, Text, text, Outcome, done,
  failed, ◌>>=◌, ◌>>◌,
}
use opencdc.Core.Format.{decimal}
use opencdc.Core.Json.{SerdeJson}
use opencdc.Wire.{index, slice, slice_from}
use opencdc.Wire.Utf8.{from_utf8_lossy}
use opencdc.Mysql.Packed.{
  le_u16, le_u64, all_bits, bytes_for, read_packed_u48, read_packed_int, read_bitset,
}
use opencdc.Mysql.Row.{read_row}

pub record TableMapEvent : Type 0 where
  pub table_id : ℕ
  pub database : Text
  pub table : Text
  pub column_types : List ℕ
  pub column_metas : List ℕ
  pub null_bits : List Bool

pub data BinlogEvent (V : Type 0) : Type 0 where
  rotate : Text → ℕ → BinlogEvent V
  format_description : BinlogEvent V
  table_map : TableMapEvent → BinlogEvent V
  gtid : Bytes → ℕ → BinlogEvent V
  xid : ℕ → BinlogEvent V
  write_rows : ℕ → List (List V) → BinlogEvent V
  update_rows : ℕ → List (List V × List V) → BinlogEvent V
  delete_rows : ℕ → List (List V) → BinlogEvent V
  heartbeat : BinlogEvent V
  unknown : ℕ → BinlogEvent V

-- What the parsers read and write of the client; `tables` is a hash map.
pub record Client : Type 0 where
  pub current_gtid : Option (Bytes × ℕ)
  pub tables : ℕ → Option TableMapEvent

-- `data[p..].iter().position(|&b| b == 0)`
unfoldable pub position_zero : Bytes → Option ℕ
position_zero [] = none
position_zero (b ∷ rest) =
    let later = position_zero rest in
    if b == 0 then some 0 else elim later [ none ↦ none | some n ↦ some (n + 1) ]

-- A name up to its zero byte, and the position behind that.
unfoldable pub read_name : Text → Bytes → ℕ → Outcome Text (Text × ℕ)
read_name what bytes p = do
  rest ← slice_from bytes p
  elim (position_zero rest) [
    | none ↦ failed (
        text "missing null terminator for "
        ++ (what ++ (text " name in table map at offset " ++ decimal p)))
    | some end ↦ do name ← slice bytes p (p + end); done (from_utf8_lossy name, p + (end + 1))
  ]

-- How many bytes of metadata the parser takes for a column type.
unfoldable pub meta_len : ℕ → Bool → ℕ
meta_len ct more =
    if ct == 0 || ct == 246
    then 2
    else if ct == 16
    then if more then 2 else 0
    else if leb 249 ct && leb ct 255
    then 1
    else 0

-- The loop over the column types: the metadata, and the position behind it.
unfoldable pub read_metas : Bytes → List ℕ → ℕ → Outcome Text (List ℕ × ℕ)
read_metas bytes [] p = done ([], p)
read_metas bytes (ct ∷ types) p =
    let len = meta_len ct (ltb p (length bytes)) in
    let taken = leb (p + len) (length bytes) in
    do
      meta ←
          if len == 0 || not taken
          then done 0
          else if len == 1
          then index bytes p
          else le_u16 bytes p
      (metas, p) ← read_metas bytes types (if taken then p + len else p)
      done (meta ∷ metas, p)

-- `trim_end_matches('\0')`
unfoldable pub trim_zeros : Text → Text
trim_zeros [] = []
trim_zeros (c ∷ rest) = elim (trim_zeros rest) [
  | [] ↦ if c == 0 then [] else c ∷ []
  | d ∷ more ↦ c ∷ d ∷ more
]

unfoldable pub parse_table_map : Bytes → Client → Outcome Text (TableMapEvent × Client)
parse_table_map bytes c = do
  let (table_id, pos) = read_packed_u48 bytes
  le_u16 bytes pos
  (database, p) ← read_name (text "database") bytes (pos + 2)
  (table, p) ← read_name (text "table") bytes p
  rest ← slice_from bytes p
  (column_count, n) ← read_packed_int rest
  column_types ← slice bytes (p + n) (p + n + column_count)
  let p = p + n + column_count
  rest ← slice_from bytes p
  (_, meta_n) ← read_packed_int rest
  (column_metas, p) ← read_metas bytes column_types (p + meta_n)
  let null_bytes = bytes_for column_count
  null_bits ←
      if leb (p + null_bytes) (length bytes)
      then (do run ← slice bytes p (p + null_bytes); done (take column_count (all_bits run)))
      else done (replicate column_count false)
  let event : TableMapEvent = record {
    table_id = table_id;
    database = database;
    table = table;
    column_types = column_types;
    column_metas = column_metas;
    null_bits = null_bits;
  }
  done (event, record c { tables = λ id. if id == table_id then some event else c.tables id })

abbrev pub types_of : Option TableMapEvent → List ℕ
types_of none = []
types_of (some t) = t.column_types

abbrev pub metas_of : Option TableMapEvent → List ℕ
metas_of none = []
metas_of (some t) = t.column_metas

-- The header of a rows event: the table's id, and the position of the rows.
unfoldable pub rows_header : Bytes → ℕ → Outcome Text (ℕ × ℕ)
rows_header bytes version = do
  let (table_id, pos) = read_packed_u48 bytes
  le_u16 bytes pos
  let pos = if version == 2 then pos + 4 else pos + 2
  rest ← slice_from bytes pos
  (_, _, n) ← read_bitset rest
  done (table_id, pos + n)

unfoldable pub parse_rotate : {V : Type 0} → Bytes → Outcome Text (BinlogEvent V)
parse_rotate bytes = if ltb (length bytes) 8 then done (rotate [] 0) else do
  pos ← le_u64 bytes 0
  name ← slice_from bytes 8
  done (rotate (trim_zeros (from_utf8_lossy name)) pos)

unfoldable pub parse_xid : {V : Type 0} → Bytes → Outcome Text (BinlogEvent V)
parse_xid bytes =
    if ltb (length bytes) 8 then done (xid 0) else (do id ← le_u64 bytes 0; done (xid id))

unfoldable pub parse_gtid :
    {V : Type 0} → Bytes → Client → Outcome Text (Option (BinlogEvent V) × Client)
parse_gtid bytes c = if ltb (length bytes) 20 then done (none, c) else do
  uuid ← slice bytes 1 17
  gno ← le_u64 bytes 17
  done (some (gtid uuid gno), record c { current_gtid = some (uuid, gno) })

module _ (j : SerdeJson) (hex_encode : Bytes → Text) where
  open j use {Value}

  -- `while pos < data.len()`. Each round that goes on takes a byte at least, so as many rounds as
  -- there are bytes are enough.
  unfoldable pub read_rows : ℕ → Bytes → List ℕ → List ℕ → ℕ → Outcome Text (List (List Value))
  read_rows zero bytes types metas pos = done []
  read_rows (suc fuel) bytes types metas pos = elim (ltb pos (length bytes)) [
    | false ↦ done []
    | true ↦ do
      rest ← slice_from bytes pos
      (row, n) ← read_row j hex_encode rest types metas
      let more = read_rows fuel bytes types metas (pos + n)
      if n == 0 then done [] else (do rows ← more; done (row ∷ rows))
  ]

  unfoldable pub read_row_pairs :
      ℕ → Bytes → List ℕ → List ℕ → ℕ → Outcome Text (List (List Value × List Value))
  read_row_pairs zero bytes types metas pos = done []
  read_row_pairs (suc fuel) bytes types metas pos = elim (ltb pos (length bytes)) [
    | false ↦ done []
    | true ↦ do
      rest ← slice_from bytes pos
      (before, n1) ← read_row j hex_encode rest types metas
      if n1 == 0 then done [] else do
        rest ← slice_from bytes (pos + n1)
        (after, n2) ← read_row j hex_encode rest types metas
        let more = read_row_pairs fuel bytes types metas (pos + n1 + n2)
        if n2 == 0 then done [] else (do rows ← more; done ((before, after) ∷ rows))
  ]

  unfoldable pub parse_write_rows : Bytes → ℕ → Client → Outcome Text (BinlogEvent Value)
  parse_write_rows bytes version c = do
    (table_id, pos) ← rows_header bytes version
    let table = c.tables table_id
    rows ← read_rows (length bytes) bytes (types_of table) (metas_of table) pos
    done (write_rows table_id rows)

  unfoldable pub parse_update_rows : Bytes → ℕ → Client → Outcome Text (BinlogEvent Value)
  parse_update_rows bytes version c = do
    (table_id, pos) ← rows_header bytes version
    let table = c.tables table_id
    rows ← read_row_pairs (length bytes) bytes (types_of table) (metas_of table) pos
    done (update_rows table_id rows)

  unfoldable pub parse_delete_rows : Bytes → ℕ → Client → Outcome Text (BinlogEvent Value)
  parse_delete_rows bytes version c = do
    (table_id, pos) ← rows_header bytes version
    let table = c.tables table_id
    rows ← read_rows (length bytes) bytes (types_of table) (metas_of table) pos
    done (delete_rows table_id rows)

  abbrev keep :
      Client → Outcome Text (BinlogEvent Value) → Outcome Text (Option (BinlogEvent Value) × Client)
  keep c m = do e ← m; done (some e, c)

  -- The event by its type, and the client after it.
  unfoldable pub parse_event :
      ℕ → Bytes → Client → Outcome Text (Option (BinlogEvent Value) × Client)
  parse_event event_type bytes c =
      if event_type == 0x0f
      then done (some format_description, c)
      else if event_type == 0x04
      then keep c (parse_rotate bytes)
      else if event_type == 0x13
      then (do (event, c) ← parse_table_map bytes c; done (some (table_map event), c))
      else if event_type == 0x17
      then keep c (parse_write_rows bytes 1 c)
      else if event_type == 0x18
      then keep c (parse_update_rows bytes 1 c)
      else if event_type == 0x19
      then keep c (parse_delete_rows bytes 1 c)
      else if event_type == 0x1e
      then keep c (parse_write_rows bytes 2 c)
      else if event_type == 0x1f
      then keep c (parse_update_rows bytes 2 c)
      else if event_type == 0x20
      then keep c (parse_delete_rows bytes 2 c)
      else if event_type == 0x21
      then parse_gtid bytes c
      else if event_type == 0x10
      then keep c (parse_xid bytes)
      else if event_type == 0x1b
      then done (some heartbeat, c)
      else done (some (unknown event_type), c)
