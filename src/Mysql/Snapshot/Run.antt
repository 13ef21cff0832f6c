-- ===== src/Mysql/Snapshot/Run.antt =====
-- crates/opencdc-connector/src/mysql/snapshot.rs: `discover_tables` and `run`. `connect` is what
-- `TcpStream::connect` returns, of the first and of the second connection; the events' channel is
-- whether `sink.is_closed()` holds before a table and whether `sink.send` fails, by the events sent
-- before. The events sent are kept also where the run fails.
use opencdc.Base.{
  ℕ, ◌+◌, Bool, ◌⊎◌, none, List, [], ◌∷◌, ◌++◌, if◌then◌else◌, length, Bytes, Text, text, Map,
  Outcome, done, failed, panicked, ◌>>=◌,
}
use opencdc.Base.Int.{ℤ}
use opencdc.Core.Error.{Error, other}
use opencdc.Core.Json.{SerdeJson}
use opencdc.Core.ConnectorType
use opencdc.Core.SourceInfo
use opencdc.Core.ChangeEvent.{ChangeEvent, snapshot_event}
use opencdc.Core.Offset.{ConnectorOffset, snapshot_done}
use opencdc.Mysql.Config.{MySqlConnectorConfig}
use opencdc.Mysql.Packets.{Tcp}
use opencdc.Mysql.Snapshot.{PacketReader, map_other}
use opencdc.Mysql.Snapshot.Query.{table_of, listed_tables, log_in, query_table}

abbrev pub select_query : Text → Text → Text
select_query db tbl = text "SELECT * FROM `" ++ (db ++ (text "`.`" ++ (tbl ++ text "`")))

abbrev pub tables_query : Text → Text
tables_query database =
    text "SELECT TABLE_SCHEMA, TABLE_NAME FROM information_schema.TABLES WHERE TABLE_SCHEMA = '"
    ++ (database ++ text "' AND TABLE_TYPE = 'BASE TABLE'")

module _ (j : SerdeJson) (t : Tcp) (sha1 : Bytes → Bytes) (config : MySqlConnectorConfig) where
  open j use {Value, object}
  open t use {Writer}

  unfoldable pub discover_tables : Text ⊎ (PacketReader × Writer) → Outcome Error (List Text)
  discover_tables connect = do
    stream ← map_other (text "discover connect failed: ") connect
    (r, w) ← log_in j t sha1 config stream
    (rows, r, w) ← query_table j t (tables_query config.database) (r, w)
    done (listed_tables j rows)

  -- `if tables.is_empty() { discover } else { tables.to_vec() }`
  unfoldable pub table_list : List Text → Text ⊎ (PacketReader × Writer) → Outcome Error (List Text)
  table_list [] connect = discover_tables connect
  table_list (table ∷ tables) connect = done (table ∷ tables)

  module _ (Schema : Type 0) (now : ℤ) (is_closed send_fails : ℕ → Bool) where
    abbrev Sent : Type 0
    Sent = List (ChangeEvent Value Schema)

    unfoldable pub row_event : Text → Text → Map Value → ChangeEvent Value Schema
    row_event db tbl row =
        snapshot_event now (object row)
          (SourceInfo.new now ConnectorType.ConnectorType.mysql db none tbl)

    -- `for row in &rows`
    unfoldable pub send_rows : Text → Text → List (Map Value) → Sent → Sent × Outcome Error Unit
    send_rows db tbl [] sent = (sent, done tt)
    send_rows db tbl (row ∷ rows) sent =
        let more = send_rows db tbl rows (sent ++ (row_event db tbl row ∷ [])) in
        if send_fails (length sent)
        then (sent, failed (other (text "snapshot sink closed")))
        else more

    -- What follows a query's answer and the rows sent, `next` being the tables that are left.
    after_table :
        (PacketReader × Writer → Sent → Sent × Outcome Error Unit)
        → PacketReader × Writer
        → Sent × Outcome Error Unit
        → Sent × Outcome Error Unit
    after_table next stream (sent, done u) = next stream sent
    after_table next stream (sent, failed e) = (sent, failed e)
    after_table next stream (sent, panicked) = (sent, panicked)

    after_query :
        (PacketReader × Writer → Sent → Sent × Outcome Error Unit)
        → Text × Text
        → Sent
        → Outcome Error (List (Map Value) × PacketReader × Writer)
        → Sent × Outcome Error Unit
    after_query next (db, tbl) sent (done (rows, r, w)) =
        after_table next (r, w) (send_rows db tbl rows sent)
    after_query next names sent (failed e) = (sent, failed e)
    after_query next names sent panicked = (sent, panicked)

    -- `for table in &table_list`
    unfoldable pub send_tables :
        ℕ → List Text → PacketReader × Writer → Sent → Sent × Outcome Error Unit
    unfolding after_table after_query send_rows
    send_tables i [] stream sent = (sent, done tt)
    send_tables i (table ∷ tables) stream sent =
        let next = send_tables (i + 1) tables in
        let names = table_of config table in
        let query = select_query (names.0) (names.1) in
        if is_closed i
        then (sent, done tt)
        else after_query next names sent (query_table j t query stream)

    unfoldable pub finish : Sent × Outcome Error Unit → Sent × Outcome Error (ConnectorOffset Value)
    finish (sent, m) = (sent, (do u ← m; done snapshot_done))

    unfoldable pub after_log_in :
        List Text
        → Outcome Error (PacketReader × Writer)
        → Sent × Outcome Error (ConnectorOffset Value)
    unfolding finish send_tables
    after_log_in tables (done stream) = finish (send_tables 0 tables stream [])
    after_log_in tables (failed e) = ([], failed e)
    after_log_in tables panicked = ([], panicked)

    unfoldable pub run_tables :
        Text ⊎ (PacketReader × Writer)
        → Outcome Error (List Text)
        → Sent × Outcome Error (ConnectorOffset Value)
    unfolding after_log_in
    run_tables connect (done tables) = after_log_in tables (do
      stream ← map_other (text "snapshot connect failed: ") connect
      log_in j t sha1 config stream)
    run_tables connect (failed e) = ([], failed e)
    run_tables connect panicked = ([], panicked)

    unfoldable pub run :
        List Text
        → Text ⊎ (PacketReader × Writer)
        → Text ⊎ (PacketReader × Writer)
        → Sent × Outcome Error (ConnectorOffset Value)
    unfolding run_tables
    run tables first second = run_tables second (table_list tables first)
