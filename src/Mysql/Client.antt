-- ===== src/Mysql/Client.antt =====
-- crates/opencdc-connector/src/mysql/binlog.rs: `next_event`, and mysql/mod.rs: the loop of `stream`
-- that turns row events into change events. The packets are what `read_packet` yields, in order; a
-- read behind the last one is the error of a connection that was closed.
pub mod Scan
use opencdc.Base.{
  ℕ, zero, suc, ◌+◌, Bool, true, false, ◌&&◌, Option, none, some, List, [], ◌∷◌, ◌++◌, map,
}
use opencdc.Base.{
  leb, ltb, ◌==◌, if◌then◌else◌, length, Bytes, Text, text, Map, insert, Outcome, done, failed,
  ◌>>=◌,
}
use opencdc.Base.Int.{ℤ}
use opencdc.Core.Format.{decimal}
use opencdc.Core.Json.{SerdeJson}
use opencdc.Core.ConnectorType
use opencdc.Core.SourceInfo
use opencdc.Core.SourceInfo.{SourceInfo}
use opencdc.Core.ChangeEvent.{ChangeEvent, create_event, update_event, delete_event}
use opencdc.Wire.{index, slice}
use opencdc.Mysql.Packed.{le_u16, le_u32}
use opencdc.Mysql.Events.{
  BinlogEvent, rotate, format_description, write_rows, update_rows, delete_rows, TableMapEvent,
  Client, parse_event,
}

pub record EventHeader : Type 0 where
  pub timestamp : ℕ
  pub event_type : ℕ
  pub server_id : ℕ
  pub event_size : ℕ
  pub log_pos : ℕ
  pub flags : ℕ

unfoldable pub read_header : Bytes → ℕ → Outcome Text EventHeader
read_header packet pos = do
  timestamp ← le_u32 packet pos
  event_type ← index packet (pos + 4)
  server_id ← le_u32 packet (pos + 5)
  event_size ← le_u32 packet (pos + 9)
  log_pos ← le_u32 packet (pos + 13)
  flags ← le_u16 packet (pos + 17)
  done (record {
    timestamp = timestamp;
    event_type = event_type;
    server_id = server_id;
    event_size = event_size;
    log_pos = log_pos;
    flags = flags;
  })

-- A packet that holds no event: a lone zero byte, or two zero bytes in front.
unfoldable pub skips : Bytes → Bool
skips (a ∷ []) = a == 0
skips (a ∷ b ∷ rest) = a == 0 && b == 0
skips [] = false

module _ (j : SerdeJson) (hex_encode : Bytes → Text) where
  open j use {Value, object}

  -- An event that `next_event` hands out: rotations and format descriptions are read over.
  unfoldable pub handed_out : Option (BinlogEvent Value) → Option (BinlogEvent Value)
  handed_out none = none
  handed_out (some (rotate name at)) = none
  handed_out (some format_description) = none
  handed_out (some event) = some event

  -- `while pos + 19 <= packet.len()`. A round that goes on has `event_size` of 19 or more, since the
  -- slice behind the header panics otherwise; so as many rounds as there are bytes are enough.
  unfoldable pub scan_packet :
      ℕ → Bytes → ℕ → Client → Outcome Text (Option (EventHeader × BinlogEvent Value) × Client)
  scan_packet zero packet pos c = done (none, c)
  scan_packet (suc fuel) packet pos c = elim (leb (pos + 19) (length packet)) [
    | false ↦ done (none, c)
    | true ↦ do
      header ← read_header packet pos
      if ltb (length packet) (pos + header.event_size) then done (none, c) else do
        event_data ← slice packet (pos + 19) (pos + header.event_size)
        (event, c) ← parse_event j hex_encode header.event_type event_data c
        elim (handed_out event) [
          | some evt ↦ done (some (header, evt), c)
          | none ↦ scan_packet fuel packet (pos + header.event_size) c
        ]
  ]

  -- The event that is handed out, if any, the client after it, and the packets that are left.
  unfoldable pub next_event :
      List Bytes
      → Client
      → Outcome Text (Option (EventHeader × BinlogEvent Value) × Client × List Bytes)
  next_event [] c = failed (text "read packet header failed: connection closed")
  next_event ([] ∷ packets) c = done (none, c, packets)
  next_event ((b ∷ bytes) ∷ packets) c =
      let later = next_event packets c in
      if skips (b ∷ bytes) then later else do
        (found, c) ← scan_packet (length (b ∷ bytes)) (b ∷ bytes) 0 c
        elim found [ some event ↦ done (some event, c, packets) | none ↦ next_event packets c ]

  -- The columns of a row as an object with the keys "col_0", "col_1" and so on. The loop runs over
  -- the table's column types, and skips those that the row does not reach.
  unfoldable pub insert_row : ℕ → List ℕ → List Value → Map Value → Map Value
  insert_row i [] row m = m
  insert_row i (t ∷ types) [] m = m
  insert_row i (t ∷ types) (v ∷ row) m =
      insert_row (i + 1) types row (insert (text "col_" ++ decimal i) v m)

  unfoldable pub row_object : TableMapEvent → List Value → Value
  row_object tm row = object (insert_row 0 tm.column_types row [])

  module _ (Schema : Type 0) (now : ℤ) where
    unfoldable pub source_of : TableMapEvent → SourceInfo Value
    source_of tm = SourceInfo.new now ConnectorType.ConnectorType.mysql tm.database none tm.table

    -- The change events of one binlog event, under the tables known by then.
    unfoldable pub change_events : Client → BinlogEvent Value → List (ChangeEvent Value Schema)
    change_events c (write_rows table_id rows) = elim (c.tables table_id) [
      | none ↦ []
      | some tm ↦ map (λ row. create_event now (row_object tm row) (source_of tm)) rows
    ]
    change_events c (update_rows table_id rows) = elim (c.tables table_id) [
      | none ↦ []
      | some tm ↦
          map
            (λ (before, after).
              update_event now (some (row_object tm before)) (row_object tm after) (source_of tm))
            rows
    ]
    change_events c (delete_rows table_id rows) = elim (c.tables table_id) [
      | none ↦ []
      | some tm ↦ map (λ row. delete_event now (row_object tm row) (source_of tm)) rows
    ]
    change_events c _ = []
