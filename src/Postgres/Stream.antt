-- ===== src/Postgres/Stream.antt =====
-- crates/opencdc-connector/src/postgres/replication.rs: from replication chunks to change events.
-- `sink.send` is the list of the events sent; the code ignores a send that fails.
pub mod Meaning
pub mod Laws
use opencdc.Base.{
  ℕ, zero, suc, ◌+◌, ◌*◌, ◌^◌, Bool, true, false, ◌||◌, Option, none, some, List, [], ◌∷◌, ◌++◌,
}
use opencdc.Base.{
  length, leb, ◌==◌, if◌then◌else◌, Bytes, Text, text, Map, insert, Outcome, done, failed, panicked,
  ◌>>=◌,
}
use opencdc.Base.Int.{ℤ, signed, i64_half}
use opencdc.Core.Error.{Error, other, display}
use opencdc.Core.ConnectorType
use opencdc.Core.SourceInfo
use opencdc.Core.SourceInfo.{SourceInfo}
use opencdc.Core.ChangeEvent.{ChangeEvent, create_event, update_event, delete_event}
use opencdc.Core.Json.{SerdeJson}
use opencdc.Wire.{be4}
use opencdc.Postgres.Decoder.{
  PgOutputDecoder, PgOutputMessage, begin, commit, relation, insert as insert_message, update,
  delete, truncate, RelationColumn, RelationMessage, TupleColumn, get_relation, decode,
}
use opencdc.Postgres.Types.{pg_type_to_json}

-- What the stream yields: the data of a chunk, or an error with its text.
pub data Chunk : Type 0 where
  chunk : Bytes → Chunk
  stream_error : Text → Chunk

module _ (j : SerdeJson) (Schema : Type 0) (database : Text) (now : ℤ) where
  open j use {Value, null, object}

  abbrev pub Event : Type 0
  Event = ChangeEvent Value Schema

  -- The streamer, its `wal_lsn` variable and the events sent so far.
  pub record Streamer : Type 0 where
    pub decoder : PgOutputDecoder
    pub wal_lsn : Option ℤ
    pub sent : List Event

  unfoldable pub column_value : RelationColumn → TupleColumn → Value
  column_value col t =
      if t.is_null || t.is_unchanged_toast
      then null
      else elim t.value [ some raw ↦ pg_type_to_json j raw col.type_oid | none ↦ null ]

  -- The loop of `columns_to_json`, which stops at the shorter list.
  unfoldable pub insert_columns : List RelationColumn → List TupleColumn → Map Value → Map Value
  insert_columns [] tuple m = m
  insert_columns (col ∷ cols) [] m = m
  insert_columns (col ∷ cols) (t ∷ ts) m =
      insert_columns cols ts (insert col.name (column_value col t) m)

  unfoldable pub columns_to_json : List RelationColumn → List TupleColumn → Value
  columns_to_json columns tuple = object (insert_columns columns tuple [])

  unfoldable pub source_of : RelationMessage → SourceInfo Value
  source_of rel =
      SourceInfo.new now ConnectorType.ConnectorType.postgres database (some rel.schema) rel.name

  -- The event of a row message, if its relation is known.
  unfoldable pub row_event : PgOutputDecoder → PgOutputMessage → List Event
  row_event d (insert_message m) = elim (get_relation d m.relation_oid) [
    | some rel ↦ create_event now (columns_to_json rel.columns m.new_tuple) (source_of rel) ∷ []
    | none ↦ []
  ]
  row_event d (update m) = elim (get_relation d m.relation_oid) [
    | some rel ↦
        update_event now
          (elim m.old_tuple [ some t ↦ some (columns_to_json rel.columns t) | none ↦ none ])
          (columns_to_json rel.columns m.new_tuple) (source_of rel)
        ∷ []
    | none ↦ []
  ]
  row_event d (delete m) = elim (get_relation d m.relation_oid) [
    | some rel ↦ delete_event now (columns_to_json rel.columns m.old_tuple) (source_of rel) ∷ []
    | none ↦ []
  ]
  row_event d _ = []

  unfoldable pub wal_after : Option ℤ → PgOutputMessage → Option ℤ
  wal_after wal (begin m) = some m.lsn
  wal_after wal (commit m) = some m.end_lsn
  wal_after wal _ = wal

  unfoldable pub process_keepalive : Bytes → Streamer → Streamer
  process_keepalive (k ∷ a ∷ b ∷ c ∷ d ∷ e ∷ f ∷ g ∷ h ∷ rest) s = record s {
    wal_lsn = some (signed i64_half (be4 a b c d * 2 ^ 32 + be4 e f g h));
  }
  process_keepalive _ s = s

  -- The arms of the match on `self.decoder.decode(data)`.
  unfoldable pub handle_decoded :
      Streamer → Outcome Error (Option PgOutputMessage × PgOutputDecoder) → Outcome Error Streamer
  handle_decoded s (done (some m, d)) =
      done
        (record s { decoder = d; wal_lsn = wal_after s.wal_lsn m; sent = s.sent ++ row_event d m })
  handle_decoded s (done (none, d)) = done (record s { decoder = d })
  handle_decoded s (failed e) = failed (other (text "pgoutput decode error: " ++ display e))
  handle_decoded s panicked = panicked

  unfoldable pub process_chunk : Bytes → Streamer → Outcome Error Streamer
  process_chunk [] s = done s
  process_chunk (b ∷ rest) s =
      if b == b'k'
      then done (process_keepalive (b ∷ rest) s)
      else handle_decoded s (decode s.decoder (b ∷ rest))

  -- The loop over the stream, up to its end.
  unfoldable pub process_stream : List Chunk → Streamer → Outcome Error Streamer
  process_stream [] s = done s
  process_stream (chunk bytes ∷ rest) s = do s ← process_chunk bytes s; process_stream rest s
  process_stream (stream_error e ∷ rest) s = failed (other (text "replication stream error: " ++ e))
