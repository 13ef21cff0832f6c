-- ===== src/Examples/Mysql.antt =====
-- MySQL's binary log: packed numbers, a row, a table map.
use opencdc.Base.{
  ℕ, ◌≡◌, refl, List, [], ◌∷◌, ◌++◌, none, some, Bytes, Text, text, All, arith, length, done,
  panicked,
}
use opencdc.Base.{if◌then◌else◌, ◌==◌, false, NoPanic, Ensures, replicate}
use opencdc.Examples.Json.{json, hex}
use opencdc.Wire.{index, slice, slice_from}
use opencdc.Wire.Utf8.{from_utf8_lossy}
use opencdc.Mysql.Packed.{all_bits, le_u16, le_u32, read_packed_int, read_packed_u48}
use opencdc.Mysql.Packed.RoundTrip.{read_packed_int-packed_int, packed_int}
use opencdc.Mysql.Column.{column_data_length, decode_binlog_value}
use opencdc.Mysql.Client.{scan_packet}
use opencdc.Mysql.Client.Scan.{scan_packet_fuel}
use opencdc.Mysql.Row.{read_row}
use opencdc.Mysql.Row.Safety.{read_row-NoPanic}
use opencdc.Mysql.Events.{
  Client, TableMapEvent, read_rows, read_row_pairs, parse_table_map, parse_gtid,
}
use opencdc.Mysql.Events.Rows.{read_rows_fuel, read_rows-NoPanic, read_rows_widths}
use opencdc.Mysql.Events.Tables.{parse_table_map_stores, parse_gtid_short, Stored}

read_packed_int_example : read_packed_int (packed_int 70000 ++ (1 ∷ [])) ≡ done (70000, 4)
read_packed_int_example = read_packed_int-packed_int 70000 (1 ∷ []) (omega arith)

-- Two rows of an int and a short string; no column is null.
abbrev bytes : Bytes
bytes = 0 ∷ 1 ∷ 0 ∷ 0 ∷ 0 ∷ 2 ∷ b'h' ∷ b'i' ∷ 0 ∷ 5 ∷ 0 ∷ 0 ∷ 0 ∷ 1 ∷ b'x' ∷ []

abbrev types : List ℕ
types = 3 ∷ 15 ∷ []

abbrev metas : List ℕ
metas = 0 ∷ 20 ∷ []

read_row-NoPanic_example : NoPanic (read_row json hex bytes types metas)
read_row-NoPanic_example = read_row-NoPanic json hex bytes types metas

read_rows_fuel_example :
    read_rows json hex 15 bytes types metas 0 ≡ read_rows json hex 40 bytes types metas 0
read_rows_fuel_example =
    read_rows_fuel json hex bytes types metas 15 40 0 (omega arith) (omega arith)

read_rows-NoPanic_example : NoPanic (read_rows json hex 15 bytes types metas 0)
read_rows-NoPanic_example = read_rows-NoPanic json hex bytes types metas 15 0

read_rows_widths_example :
    Ensures (All (λ row. length row ≡ 2)) (read_rows json hex 15 bytes types metas 0)
    × Ensures
        (All (λ (before, later). (length before ≡ 2) × (length later ≡ 2)))
        (read_row_pairs json hex 15 bytes types metas 0)
read_rows_widths_example = read_rows_widths json hex bytes types metas 15 0

-- The image of a blob whose two bytes of length do not fit: they are counted all the same, so that the
-- second row of the update would begin behind the end.
update_rows_short : read_row_pairs json hex 2 (0 ∷ 5 ∷ []) (252 ∷ []) (1 ∷ []) 0 ≡ panicked
unfolding read_row_pairs slice_from read_row slice opencdc.Mysql.Row.read_columns all_bits
    opencdc.Mysql.Row.read_column column_data_length opencdc.Mysql.Row.read_variable
    opencdc.Mysql.Row.read_blob
update_rows_short = refl

rows_run :
    read_rows json hex 15 bytes types metas 0
    ≡ done ((text "1" ∷ text "hi" ∷ []) ∷ (text "5" ∷ text "x" ∷ []) ∷ [])
unfolding read_rows slice_from read_row slice opencdc.Mysql.Row.read_columns all_bits
    opencdc.Mysql.Row.read_column column_data_length decode_binlog_value
    opencdc.Mysql.Column.decode_integer le_u32 index opencdc.Mysql.Row.read_variable
    opencdc.Mysql.Column.decode_length_encoded_string opencdc.Core.Format.shown from_utf8_lossy
rows_run = refl

abbrev client : Client
client = record { current_gtid = none; tables = λ id. none }

abbrev table_map_bytes : Bytes
table_map_bytes = 77 ∷ 0 ∷ 0 ∷ 0 ∷ 0 ∷ 0 ∷ 1 ∷ 0 ∷ b'd' ∷ 0 ∷ b't' ∷ 0 ∷ 2 ∷ 3 ∷ 15 ∷ 0 ∷ 0 ∷ []

abbrev items : TableMapEvent
items = record {
  table_id = 77;
  database = text "d";
  table = text "t";
  column_types = types;
  column_metas = 0 ∷ 0 ∷ [];
  null_bits = false ∷ false ∷ [];
}

abbrev mapped : Client
mapped = record { current_gtid = none; tables = λ id. if id == 77 then some items else none }

parsed : parse_table_map table_map_bytes client ≡ done (items, mapped)
unfolding parse_table_map le_u16 index read_packed_u48 opencdc.Mysql.Events.read_name slice_from
    opencdc.Mysql.Events.position_zero slice read_packed_int opencdc.Mysql.Events.read_metas
    opencdc.Mysql.Events.meta_len from_utf8_lossy all_bits
parsed = refl

parse_table_map_stores_example : Stored client (items, mapped)
parse_table_map_stores_example = parse_table_map_stores table_map_bytes client items mapped parsed

parse_gtid_short_example : parse_gtid {V = Text} (replicate 22 0) client ≡ panicked
parse_gtid_short_example = parse_gtid_short (replicate 22 0) client (omega arith) (omega arith)

scan_packet_fuel_example :
    scan_packet json hex 15 bytes 0 client ≡ scan_packet json hex 40 bytes 0 client
scan_packet_fuel_example =
    scan_packet_fuel json hex bytes 15 40 0 client (omega arith) (omega arith)
