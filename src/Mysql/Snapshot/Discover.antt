-- ===== src/Mysql/Snapshot/Discover.antt =====
-- The names under which `query_table` stores the columns, and what `discover_tables` looks for.
use opencdc.Base.{
  ℕ, zero, suc, ◌+◌, ◌≡◌, refl, ◌∙◌, Bool, ◌⊎◌, none, List, [], ◌∷◌, ◌==◌, All, Bytes, Text, text,
  same, Map, lookup, insert, lookup-insert, Outcome, done, failed, panicked, Ensures, Ensures-done,
  Ensures-failed, Ensures-bind, Ensures-if, Ensures-then,
}
use opencdc.Base.Int.{ℤ}
use opencdc.Core.Error.{Error}
use opencdc.Core.Json.{SerdeJson}
use opencdc.Wire.{slice_from}
use opencdc.Mysql.Config.{MySqlConnectorConfig}
use opencdc.Mysql.Packets.{Tcp}
use opencdc.Mysql.Snapshot.{
  PacketReader, read_fails, packet_then, map_other, decode_length_str, next_packet, skip_packets,
  send_query, server_error,
}
use opencdc.Mysql.Snapshot.Query.{
  column_key, ends_rows, read_cells, read_text_rows, query_rows, query_table, get_text,
  listed_tables, log_in,
}
use opencdc.Mysql.Snapshot.Run.{
  discover_tables, table_list, run, run_tables, after_log_in, finish, send_tables, tables_query,
}

module _ (j : SerdeJson) where
  open j use {Value, null, string}

  abbrev Unnamed : Map Value → Type 0
  Unnamed row = lookup (text "TABLE_SCHEMA") row ≡ none

  insert-Unnamed :
      (i : ℕ) (v : Value) (row : Map Value) → Unnamed row → Unnamed (insert (column_key i) v row)
  unfolding same
  insert-Unnamed i v row h = lookup-insert (column_key i) (text "TABLE_SCHEMA") v row ∙ h

  read_cells-Unnamed :
      (n i : ℕ) (bytes : Bytes) (row : Map Value)
      → Unnamed row
      → Ensures Unnamed (read_cells j n i bytes row)
  unfolding read_cells
  read_cells-Unnamed zero i bytes row h = Ensures-done _ h
  read_cells-Unnamed (suc n) i [] row h = Ensures-done _ h
  read_cells-Unnamed (suc n) i (b ∷ rest) row h =
      Ensures-if (b == 0xfb) _ _ (read_cells-Unnamed n (i + 1) rest _ (insert-Unnamed i null row h))
        (Ensures-bind (decode_length_str (b ∷ rest)) _
          λ (taken, s). read_cells-Unnamed n (i + 1) _ _ (insert-Unnamed i (string s) row h))

  read_text_rows-Unnamed :
      (n : ℕ) (packets : PacketReader) → Ensures (λ r. All Unnamed r.0) (read_text_rows j n packets)
  unfolding read_text_rows lookup
  read_text_rows-Unnamed n (read_fails e) = Ensures-failed _
  read_text_rows-Unnamed n (packet_then payload packets) =
      Ensures-if (ends_rows payload) _ _ (Ensures-done _ tt) (
        Ensures-then (read_cells j n 0 payload []) _ (read_cells-Unnamed n 0 payload [] refl)
          λ row hr.
            Ensures-then (read_text_rows j n packets) _ (read_text_rows-Unnamed n packets)
              λ r hs. Ensures-done _ (hr, hs))

  server_error-Unnamed :
      (bytes : Bytes)
      → Ensures {A = List (Map Value) × PacketReader}
          (λ r. All Unnamed r.0)
          (server_error (text "mysql query error: ") bytes)
  unfolding server_error
  server_error-Unnamed bytes = Ensures-bind (slice_from bytes 3) _ λ message. Ensures-failed _

  query_rows-Unnamed : (r : PacketReader) → Ensures (λ r. All Unnamed r.0) (query_rows j r)
  unfolding query_rows next_packet
  query_rows-Unnamed (read_fails e) = Ensures-failed _
  query_rows-Unnamed (packet_then [] packets) = Ensures-done _ tt
  query_rows-Unnamed (packet_then (first ∷ rest) packets) =
      Ensures-if (first == 0xff) _ _ (server_error-Unnamed (first ∷ rest)) (
        Ensures-bind (skip_packets first packets) _
          λ r. Ensures-bind (next_packet r) _ λ (eof, r). read_text_rows-Unnamed first r)

  listed_tables-Unnamed : (rows : List (Map Value)) → All Unnamed rows → listed_tables j rows ≡ []
  unfolding listed_tables get_text
  listed_tables-Unnamed [] h = refl
  listed_tables-Unnamed (row ∷ rows) h = rw (h.0, get_text) (listed_tables-Unnamed rows h.1)

  module _ (t : Tcp) (sha1 : Bytes → Bytes) (config : MySqlConnectorConfig) where
    open t use {Writer}

    discover_tables-none :
        (connect : Text ⊎ (PacketReader × Writer))
        → Ensures (λ names. names ≡ []) (discover_tables j t sha1 config connect)
    unfolding discover_tables query_table
    discover_tables-none connect =
        Ensures-bind (map_other (text "discover connect failed: ") connect) _ λ stream.
          Ensures-bind (log_in j t sha1 config stream) _ λ (r, w).
            Ensures-then (query_table j t (tables_query config.database) (r, w)) _
              (Ensures-bind (send_query t (tables_query config.database) w) _
                λ w. Ensures-then (query_rows j r) _ (query_rows-Unnamed r) λ s h. Ensures-done _ h)
              λ s h. Ensures-done _ (listed_tables-Unnamed _ h)

    module _ (Schema : Type 0) (now : ℤ) (is_closed send_fails : ℕ → Bool) where
      after_log_in-none :
          (m : Outcome Error (PacketReader × Writer))
          → (after_log_in j t sha1 config Schema now is_closed send_fails [] m).0 ≡ []
      unfolding after_log_in finish send_tables
      after_log_in-none (done stream) = refl
      after_log_in-none (failed e) = refl
      after_log_in-none panicked = refl

      run_tables-none :
          (connect : Text ⊎ (PacketReader × Writer)) (names : Outcome Error (List Text))
          → Ensures (λ names. names ≡ []) names
          → (run_tables j t sha1 config Schema now is_closed send_fails connect names).0 ≡ []
      unfolding run_tables
      run_tables-none connect (failed e) h = refl
      run_tables-none connect panicked h = refl
      run_tables-none connect (done names) h = rw h.holds (after_log_in-none _)

      -- A snapshot for which no tables are listed sends no event, whatever the servers answer: the
      -- query for the names stores its columns under "col_0" and "col_1", and looks for others.
      pub run_unlisted :
          (first second : Text ⊎ (PacketReader × Writer))
          → (run j t sha1 config Schema now is_closed send_fails [] first second).0 ≡ []
      unfolding run table_list
      run_unlisted first second = run_tables-none second _ (discover_tables-none first)
