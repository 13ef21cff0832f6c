-- ===== src/OpenLake.antt =====
-- crates/opencdc-sink-openlake/src/lib.rs: the sink that appends events to the tables of a store. The
-- store is openlake's and the record batch Arrow's, both parameters; a column is what the array that is
-- made of it holds.
pub mod Columns
use opencdc.Base.{
  ℕ, Bool, true, false, ◌⊎◌, inl, inr, Option, none, some, List, [], ◌∷◌, ◌++◌, map, Text, text,
  Map, lookup, insert, Outcome, done, failed, panicked,
}
use opencdc.Base.Int.{ℤ}
use opencdc.Core.Json.{SerdeJson}
use opencdc.Core.Operation
use opencdc.Core.SourceInfo
use opencdc.Core.SourceInfo.{SourceInfo}
use opencdc.Core.ChangeEvent.{ChangeEvent, ChangePayload}
use opencdc.Pipeline.Error.{PipelineError, sink}

-- The types of Arrow that the sink uses, a field of a schema, and the arrays that columns become.
pub data DataType : Type 0 where
  utf8 int64 : DataType

pub record Field : Type 0 where
  pub name : Text
  pub data_type : DataType
  pub nullable : Bool

pub data Column : Type 0 where
  string_array : List (Option Text) → Column
  int64_array : List (Option ℤ) → Column

-- `RecordBatch::try_new`; none is an error.
pub record Arrow : Type 1 where
  pub Batch : Type 0
  pub try_new : List Field → List Column → Option Batch

pub record TableStore (a : Arrow) : Type 1 where
  pub Store : Type 0
  pub TableId : Type 0
  pub table_identifier : Text → Text → TableId
  pub register : TableId → List Field → Store → Store
  pub append : TableId → List a.Batch → Store → Text ⊎ Store

abbrev field : Text → DataType → Bool → Field
field name data_type nullable = record { name = name; data_type = data_type; nullable = nullable }

unfoldable pub make_schema : List Field
make_schema =
    field (text "op") utf8 false
    ∷ field (text "ts_ms") int64 true
    ∷ field (text "db") utf8 false
    ∷ field (text "schema") utf8 true
    ∷ field (text "table") utf8 false
    ∷ field (text "connector") utf8 false
    ∷ field (text "lsn") int64 true
    ∷ field (text "txId") int64 true
    ∷ field (text "snapshot") utf8 false
    ∷ field (text "before") utf8 true
    ∷ field (text "after") utf8 true
    ∷ []

module _ (j : SerdeJson) (Schema : Type 0) where
  abbrev Event : Type 0
  Event = ChangeEvent j.Value Schema

  unfoldable pub table_key : Event → Text
  table_key event = event.payload.source.db ++ (text "." ++ event.payload.source.table)

  -- `.as_ref().map(|v| serde_json::to_string(v)..)`; a JSON value has a text.
  abbrev pub json_text : Option j.Value → Option Text
  json_text none = none
  json_text (some v) = some (j.to_string v)

  -- What the loop of `events_to_batch` pushes, column by column.
  unfoldable pub columns : List Event → List Column
  columns events =
      string_array (map (λ e. some (Operation.as_str e.payload.op)) events)
      ∷ int64_array (map (λ e. e.payload.ts_ms) events)
      ∷ string_array (map (λ e. some e.payload.source.db) events)
      ∷ string_array (map (λ e. e.payload.source.schema) events)
      ∷ string_array (map (λ e. some e.payload.source.table) events)
      ∷ string_array (map (λ e. some e.payload.source.connector) events)
      ∷ int64_array (map (λ e. e.payload.source.lsn) events)
      ∷ int64_array (map (λ e. e.payload.source.tx_id) events)
      ∷ string_array (map (λ e. some (SourceInfo.phase_str e.payload.source.snapshot)) events)
      ∷ string_array (map (λ e. json_text e.payload.before) events)
      ∷ string_array (map (λ e. json_text e.payload.after) events)
      ∷ []

  module _ (a : Arrow) (t : TableStore a) where
    open t use {Store, TableId, table_identifier, register, append}

    pub record OpenLakeSink : Type 0 where
      pub name : Text
      pub store : Store
      pub registered : Map Bool

    unfoldable pub new : Text → Store → OpenLakeSink
    new name store = record { name = name; store = store; registered = [] }

    unfoldable pub make_table_id : Event → TableId
    make_table_id event = table_identifier event.payload.source.db event.payload.source.table

    -- `&events[0]` is an event, since `write` has returned for none; `.expect(..)` panics.
    abbrev expect : Option a.Batch → Outcome PipelineError a.Batch
    expect none = panicked
    expect (some batch) = done batch

    unfoldable pub events_to_batch : List Event → Outcome PipelineError a.Batch
    events_to_batch events = expect (a.try_new make_schema (columns events))

    abbrev register_new : Event → Option Bool → OpenLakeSink → OpenLakeSink
    register_new event (some known) s = s
    register_new event none s = record s {
      store = register (make_table_id event) make_schema s.store;
      registered = insert (table_key event) true s.registered;
    }

    unfoldable pub ensure_table : Event → OpenLakeSink → OpenLakeSink
    ensure_table event s = register_new event (lookup (table_key event) s.registered) s

    -- What follows `append`, and what follows the batch.
    appended : Text → OpenLakeSink → Text ⊎ Store → OpenLakeSink × Outcome PipelineError Unit
    appended key s (inl e) =
        (s, failed (sink (text "OpenLake append failed for " ++ (key ++ (text ": " ++ e)))))
    appended key s (inr store) = (record s { store = store }, done tt)

    append_batch :
        Event
        → OpenLakeSink
        → Outcome PipelineError a.Batch
        → OpenLakeSink × Outcome PipelineError Unit
    unfolding appended
    append_batch event s (done batch) =
        appended (table_key event) s (append (make_table_id event) (batch ∷ []) s.store)
    append_batch event s (failed e) = (s, failed e)
    append_batch event s panicked = (s, panicked)

    unfoldable pub write : OpenLakeSink → List Event → OpenLakeSink × Outcome PipelineError Unit
    unfolding append_batch
    write s [] = (s, done tt)
    write s (event ∷ events) =
        append_batch event (ensure_table event s) (events_to_batch (event ∷ events))
