-- ===== src/Postgres/Stream/Meaning.antt =====
-- What a message of the protocol stands for in the replication stream: the description that the
-- streamer of replication.rs is held to.
use opencdc.Base.{◌≡◌, refl, ap, List, [], ◌∷◌, ◌++◌, map, Option, none, some, Text}
use opencdc.Base.Int.{ℤ}
use opencdc.Core.Json.{SerdeJson}
use opencdc.Postgres.Decoder.{PgOutputDecoder, PgOutputMessage, RelationMessage, get_relation}
use opencdc.Postgres.Protocol.{
  WireMessage, begin_of, commit_of, relation_of, insert_of, update_of, update_old_of, delete_of,
  truncate_of, meaning, remember,
}
use opencdc.Base.{Map, insert, Option-cases, inl, inr}
use opencdc.Core.ConnectorType.{ConnectorType}
use opencdc.Core.SourceInfo
use opencdc.Core.ChangeEvent.{create_event, update_event, delete_event}
use opencdc.Postgres.Decoder.{RelationColumn}
use opencdc.Postgres.Types.{pg_type_to_json}
use opencdc.Postgres.Protocol.{Cell, null, unchanged, value, cell_column}
use opencdc.Postgres.Stream
use opencdc.Postgres.Stream.{Chunk, chunk, stream_error}

module _ (j : SerdeJson) (Schema : Type 0) (database : Text) (now : ℤ) where
  abbrev S : Type 0
  S = Stream.Streamer j Schema database now

  abbrev row_event : PgOutputDecoder → PgOutputMessage → List (Stream.Event j Schema database now)
  row_event = Stream.row_event j Schema database now

  abbrev Decoded : Type 0
  Decoded = Stream.Event j Schema database now

  -- What a row of cells is, under the columns of its relation: null, an unchanged value and a value by
  -- its type.
  abbrev cell_value : RelationColumn → Cell → j.Value
  cell_value col null = j.null
  cell_value col unchanged = j.null
  cell_value col (value v) = pg_type_to_json j v col.type_oid

  abbrev cell_entries : List RelationColumn → List Cell → Map j.Value → Map j.Value
  cell_entries [] cells m = m
  cell_entries (col ∷ cols) [] m = m
  cell_entries (col ∷ cols) (c ∷ cells) m =
      cell_entries cols cells (insert col.name (cell_value col c) m)

  abbrev row_value : RelationMessage → List Cell → j.Value
  row_value rel cells = j.object (cell_entries rel.columns cells [])

  -- An event under a relation, if that is known.
  abbrev under :
      Option RelationMessage
      → (RelationMessage → SourceInfo.SourceInfo j.Value → Decoded)
      → List Decoded
  under none f = []
  under (some rel) f =
      f rel (SourceInfo.new now ConnectorType.postgres database (some rel.schema) rel.name) ∷ []

  -- The events that a message stands for, under the relations of `d`.
  abbrev events_of : PgOutputDecoder → WireMessage → List Decoded
  events_of d (insert_of oid row) =
      under (get_relation d oid) λ rel source. create_event now (row_value rel row) source
  events_of d (update_of oid row) =
      under (get_relation d oid) λ rel source. update_event now none (row_value rel row) source
  events_of d (update_old_of o oid old row) =
      under (get_relation d oid)
        λ rel source. update_event now (some (row_value rel old)) (row_value rel row) source
  events_of d (delete_of o oid old) =
      under (get_relation d oid) λ rel source. delete_event now (row_value rel old) source
  events_of d _ = []

  -- The position that a message moves to: a begin to its LSN, a commit to the transaction's end.
  abbrev position_after : Option ℤ → WireMessage → Option ℤ
  position_after wal (begin_of lsn ts xid) = some lsn
  position_after wal (commit_of flags lsn end_lsn ts) = some end_lsn
  position_after wal _ = wal

  -- The state after one message of the format.
  abbrev pub follow : S → WireMessage → S
  follow s m = record s {
    decoder = remember s.decoder m;
    wal_lsn = position_after s.wal_lsn m;
    sent = s.sent ++ events_of (remember s.decoder m) m;
  }

  abbrev pub follow_all : S → List WireMessage → S
  follow_all s [] = s
  follow_all s (m ∷ ms) = follow_all (follow s m) ms

  insert_columns-cells :
      (cols : List RelationColumn) (cells : List Cell) (m : Map j.Value)
      → Stream.insert_columns j Schema database now cols (map cell_column cells) m
        ≡ cell_entries cols cells m
  unfolding Stream.insert_columns Stream.column_value
  insert_columns-cells [] cells m = refl
  insert_columns-cells (col ∷ cols) [] m = refl
  insert_columns-cells (col ∷ cols) (null ∷ cells) m = insert_columns-cells cols cells _
  insert_columns-cells (col ∷ cols) (unchanged ∷ cells) m = insert_columns-cells cols cells _
  insert_columns-cells (col ∷ cols) (value v ∷ cells) m = insert_columns-cells cols cells _

  columns_to_json-cells :
      (rel : RelationMessage) (cells : List Cell)
      → Stream.columns_to_json j Schema database now rel.columns (map cell_column cells)
        ≡ row_value rel cells
  unfolding Stream.columns_to_json
  columns_to_json-cells rel cells = ap j.object (insert_columns-cells rel.columns cells [])

  row_event-meaning :
      (d : PgOutputDecoder) (m : WireMessage) → row_event d (meaning m) ≡ events_of d m
  unfolding Stream.row_event Stream.source_of
  row_event-meaning d (begin_of a b c) = refl
  row_event-meaning d (commit_of a b c e) = refl
  row_event-meaning d (relation_of a b c e f) = refl
  row_event-meaning d (insert_of oid row) = elim (Option-cases (get_relation d oid)) [
    | inl unknown ↦ rw (unknown, Stream.row_event) refl
    | inr (rel, known) ↦ rw (known, Stream.row_event, columns_to_json-cells rel row) refl
  ]
  row_event-meaning d (update_of oid row) = elim (Option-cases (get_relation d oid)) [
    | inl unknown ↦ rw (unknown, Stream.row_event) refl
    | inr (rel, known) ↦ rw (known, Stream.row_event, columns_to_json-cells rel row) refl
  ]
  row_event-meaning d (update_old_of o oid old row) = elim (Option-cases (get_relation d oid)) [
    | inl unknown ↦ rw (unknown, Stream.row_event) refl
    | inr (rel, known) ↦
        rw (known, Stream.row_event, columns_to_json-cells rel old, columns_to_json-cells rel row)
          refl
  ]
  row_event-meaning d (delete_of o oid old) = elim (Option-cases (get_relation d oid)) [
    | inl unknown ↦ rw (unknown, Stream.row_event) refl
    | inr (rel, known) ↦ rw (known, Stream.row_event, columns_to_json-cells rel old) refl
  ]
  row_event-meaning d (truncate_of a b) = refl

  wal_after-meaning :
      (wal : Option ℤ) (m : WireMessage)
      → Stream.wal_after j Schema database now wal (meaning m) ≡ position_after wal m
  unfolding Stream.wal_after
  wal_after-meaning wal (begin_of a b c) = refl
  wal_after-meaning wal (commit_of a b c e) = refl
  wal_after-meaning wal (relation_of a b c e f) = refl
  wal_after-meaning wal (insert_of a b) = refl
  wal_after-meaning wal (update_of a b) = refl
  wal_after-meaning wal (update_old_of a b c e) = refl
  wal_after-meaning wal (delete_of a b c) = refl
  wal_after-meaning wal (truncate_of a b) = refl

  -- What the code makes of a decoded message of the format.
  abbrev pub handled : S → WireMessage → S
  handled s m = record s {
    decoder = remember s.decoder m;
    wal_lsn = Stream.wal_after j Schema database now s.wal_lsn (meaning m);
    sent = s.sent ++ row_event (remember s.decoder m) (meaning m);
  }

  pub handled-follow : (s : S) (m : WireMessage) → handled s m ≡ follow s m
  handled-follow s m =
      rw (wal_after-meaning s.wal_lsn m, row_event-meaning (remember s.decoder m) m) refl
