-- ===== src/Mysql/Snapshot/Rows.antt =====
-- The rows of a query's answer, as an encoder of the protocol's text rows, and what `query_table` reads.
use opencdc.Base.{
  ℕ, suc, ◌+◌, ◌<◌, ◌≡◌, refl, ap, sym, ◌∙◌, true, false, Option, none, some, List, [], ◌∷◌, ◌++◌,
  ◌==◌, length, drop, map, All, Bytes, Text, Map, insert, done, arith, lt→ltb, length-append,
  drop-length-append, append_assoc,
}
use opencdc.Core.Error.{Error}
use opencdc.Core.Json.{SerdeJson}
use opencdc.Wire.Shift.{slice-run}
use opencdc.Wire.Utf8.{from_utf8_lossy}
use opencdc.Mysql.Packets.{Tcp, packet_header}
use opencdc.Mysql.Packets.Framing.{Open, framed}
use opencdc.Mysql.Snapshot.{
  PacketReader, packet_then, decode_length_str, next_packet, skip_packets, send_query,
}
use opencdc.Mysql.Snapshot.Query.{
  column_key, ends_rows, read_cells, read_text_rows, query_rows, query_table,
}

-- A cell of fewer than 251 bytes: 0xfb is null, else the length stands in front.
abbrev pub cell_bytes : Option Text → Bytes
cell_bytes none = 0xfb ∷ []
cell_bytes (some s) = length s ∷ s

abbrev pub row_bytes : List (Option Text) → Bytes
row_bytes [] = []
row_bytes (cell ∷ cells) = cell_bytes cell ++ row_bytes cells

abbrev pub Fits : Option Text → Type 0
Fits none = Unit
Fits (some s) = length s < 251

decode_length_str-cell :
    (s rest : Bytes)
    → decode_length_str (length s ∷ (s ++ rest)) ≡ done (1 + length s, from_utf8_lossy s)
unfolding decode_length_str
decode_length_str-cell s rest =
    rw (lt→ltb (length s) (suc (length (s ++ rest))) (omega (arith, length-append s rest))) rw
      (slice-run {E = Error} (length s ∷ []) (s ++ rest) s rest refl) refl

module _ (j : SerdeJson) where
  open j use {Value, null, string}

  abbrev pub cell_value : Option Text → Value
  cell_value none = null
  cell_value (some s) = string (from_utf8_lossy s)

  -- The columns from the number `i` on, each under its number.
  abbrev pub row_map : ℕ → List (Option Text) → Map Value → Map Value
  row_map i [] m = m
  row_map i (cell ∷ cells) m = row_map (i + 1) cells (insert (column_key i) (cell_value cell) m)

  read_cells-row :
      (i : ℕ) (cells : List (Option Text)) (m : Map Value)
      → All Fits cells
      → read_cells j (length cells) i (row_bytes cells) m ≡ done (row_map i cells m)
  unfolding read_cells
  read_cells-row i [] m h = refl
  read_cells-row i (none ∷ cells) m h = read_cells-row (i + 1) cells _ h.1
  read_cells-row i (some s ∷ cells) m h =
      rw (not_null (length s) h.0, decode_length_str-cell s (row_bytes cells))
        (ap
            (λ r.
              read_cells j (length cells) (i + 1) r (insert (column_key i) (cell_value (some s)) m))
            cut
          ∙ read_cells-row (i + 1) cells _ h.1)
    where
      one_more : (k : ℕ) → 1 + k ≡ suc k
      one_more k = omega arith

      cut : drop (1 + length s) (length s ∷ (s ++ row_bytes cells)) ≡ row_bytes cells
      cut =
          ap (λ (k : ℕ). drop k (length s ∷ (s ++ row_bytes cells))) (one_more (length s))
          ∙ drop-length-append s (row_bytes cells)

      not_null : (n : ℕ) → n < 251 → (n == 0xfb) ≡ false
      not_null n l = ground arith

  ends_rows-row :
      (cells : List (Option Text))
      → 0 < length cells
      → All Fits cells
      → ends_rows (row_bytes cells) ≡ false
  unfolding ends_rows
  ends_rows-row [] l h = absurd (omega arith)
  ends_rows-row (none ∷ cells) l h = refl
  ends_rows-row (some s ∷ cells) l h = not_end (length s) h.0
    where
      not_end : (n : ℕ) → n < 251 → (n == 0xfe) ≡ false
      not_end n m = ground arith

  -- A row of `n` cells.
  abbrev pub RowOf : ℕ → List (Option Text) → Type 0
  RowOf n cells = (length cells ≡ n) × All Fits cells

  -- A reader that yields the packets of the list first.
  abbrev in_front : List Bytes → PacketReader → PacketReader
  in_front [] more = more
  in_front (payload ∷ packets) more = packet_then payload (in_front packets more)

  read_text_rows-rows :
      (n : ℕ) (rows : List (List (Option Text))) (eof : Bytes) (more : PacketReader)
      → 0 < n
      → All (RowOf n) rows
      → ends_rows eof ≡ true
      → read_text_rows j n (in_front (map row_bytes rows) (packet_then eof more))
        ≡ done (map (λ cells. row_map 0 cells []) rows, more)
  unfolding read_text_rows
  read_text_rows-rows n [] eof more l h e = rw e refl
  read_text_rows-rows n (cells ∷ rows) eof more l h e =
      rw (ends_rows-row cells (omega (arith, h.0.0)) h.0.1, one_row h.0.0) rw
        (read_text_rows-rows n rows eof more l h.1 e) refl
    where
      one_row : length cells ≡ n → read_cells j n 0 (row_bytes cells) [] ≡ done (row_map 0 cells [])
      one_row d =
          ap (λ (k : ℕ). read_cells j k 0 (row_bytes cells) []) (sym d)
          ∙ read_cells-row 0 cells [] h.0.1

  skip_packets-columns :
      (columns : List Bytes) (more : PacketReader)
      → skip_packets (length columns) (in_front columns more) ≡ done more
  unfolding skip_packets next_packet
  skip_packets-columns [] more = refl
  skip_packets-columns (column ∷ columns) more = skip_packets-columns columns more

  -- What the server answers to a query: the number of columns, a packet for each, the end of the
  -- columns, the rows, and the end of the rows.
  abbrev pub answer :
      List Bytes → Bytes → List (List (Option Text)) → Bytes → PacketReader → PacketReader
  answer columns end_columns rows end_rows more = packet_then (length columns ∷ []) (
      in_front columns
        (packet_then end_columns (in_front (map row_bytes rows) (packet_then end_rows more))))

  query_rows-answer :
      (columns : List Bytes) (end_columns : Bytes) (rows : List (List (Option Text)))
      (end_rows : Bytes) (more : PacketReader)
      → 0 < length columns
      → length columns < 251
      → All (RowOf (length columns)) rows
      → ends_rows end_rows ≡ true
      → query_rows j (answer columns end_columns rows end_rows more)
        ≡ done (map (λ cells. row_map 0 cells []) rows, more)
  unfolding query_rows next_packet
  query_rows-answer columns end_columns rows end_rows more l small h e =
      rw (not_error (length columns) small) rw
        (skip_packets-columns columns
          (packet_then end_columns (in_front (map row_bytes rows) (packet_then end_rows more))))
        (read_text_rows-rows (length columns) rows end_rows more l h e)
    where
      not_error : (n : ℕ) → n < 251 → (n == 0xff) ≡ false
      not_error n m = ground arith

  -- With a server whose answer has 1 to 250 columns and cells of fewer than 251 bytes: the query's text
  -- is written as one packet, every row is returned in its order as an object with the keys "col_0",
  -- "col_1" and so on, and the reader is left behind the answer.
  pub query_table-answer :
      (t : Tcp) (o : Open t) (query w : Bytes) (columns : List Bytes) (end_columns : Bytes)
      (rows : List (List (Option Text))) (end_rows : Bytes) (more : PacketReader)
      → 0 < length columns
      → length columns < 251
      → All (RowOf (length columns)) rows
      → ends_rows end_rows ≡ true
      → query_table j t query (answer columns end_columns rows end_rows more, o.written w)
        ≡ done (map (λ cells. row_map 0 cells []) rows, more, o.written (w ++ framed 0 query))
  unfolding query_table send_query packet_header
  query_table-answer t o query w columns end_columns rows end_rows more l small h e =
      rw (o.writes w (packet_header 0 query)) rw (o.writes (w ++ packet_header 0 query) query) rw
        (query_rows-answer columns end_columns rows end_rows more l small h e)
        (ap (λ (v : Bytes). done (map (λ cells. row_map 0 cells []) rows, more, o.written v))
          (append_assoc w (packet_header 0 query) query))
