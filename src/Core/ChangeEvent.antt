-- ===== src/Core/ChangeEvent.antt =====
-- crates/opencdc-core/src/change_event.rs: the event that connectors produce and pipelines carry.
-- `V` is serde_json's value type, `Schema` the event's schema, and `now` the clock's reading.
use opencdc.Base.{Bool, true, false, ◌&&◌, ◌||◌, Option, none, some, [], ◌++◌, Text, text, same}
use opencdc.Base.Int.{ℤ}
use opencdc.Core.Operation.{Operation, create, update, delete, read, op_eq}
use opencdc.Core.SourceInfo.{SourceInfo}
use opencdc.Core.Transaction.{TransactionInfo}

pub record ChangePayload (V : Type 0) : Type 0 where
  pub before : Option V
  pub after : Option V
  pub source : SourceInfo V
  pub op : Operation
  pub ts_ms : Option ℤ
  pub transaction : Option TransactionInfo

pub record ChangeEvent (V Schema : Type 0) : Type 0 where
  pub schema : Option Schema
  pub payload : ChangePayload V

abbrev is_none : {V : Type 0} → Option V → Bool
is_none none = true
is_none (some v) = false

module _ {V Schema : Type 0} where
  unfoldable pub new_event : ChangePayload V → ChangeEvent V Schema
  new_event payload = record { schema = none; payload = payload }

  unfoldable pub with_schema : Schema → ChangeEvent V Schema → ChangeEvent V Schema
  with_schema schema e = record e { schema = some schema }

  -- `ChangeEvent::create`
  unfoldable pub create_event : ℤ → V → SourceInfo V → ChangeEvent V Schema
  unfolding new_event
  create_event now after source = new_event (record {
    before = none;
    after = some after;
    source = source;
    op = create;
    ts_ms = some now;
    transaction = none;
  })

  -- `ChangeEvent::update`
  unfoldable pub update_event : ℤ → Option V → V → SourceInfo V → ChangeEvent V Schema
  unfolding new_event
  update_event now before after source = new_event (record {
    before = before;
    after = some after;
    source = source;
    op = update;
    ts_ms = some now;
    transaction = none;
  })

  -- `ChangeEvent::delete`
  unfoldable pub delete_event : ℤ → V → SourceInfo V → ChangeEvent V Schema
  unfolding new_event
  delete_event now before source = new_event (record {
    before = some before;
    after = none;
    source = source;
    op = delete;
    ts_ms = some now;
    transaction = none;
  })

  -- `ChangeEvent::snapshot`
  unfoldable pub snapshot_event : ℤ → V → SourceInfo V → ChangeEvent V Schema
  unfolding new_event
  snapshot_event now after source = new_event (record {
    before = none;
    after = some after;
    source = source;
    op = read;
    ts_ms = some now;
    transaction = none;
  })

  unfoldable pub fully_qualified_table : ChangeEvent V Schema → Text
  fully_qualified_table e = elim e.payload.source.schema [
    | some schema ↦
        e.payload.source.db ++ (text "." ++ (schema ++ (text "." ++ e.payload.source.table)))
    | none ↦ e.payload.source.db ++ (text "." ++ e.payload.source.table)
  ]

  unfoldable pub topic_name : Text → ChangeEvent V Schema → Text
  topic_name prefix e = elim e.payload.source.schema [
    | some schema ↦ prefix ++ (text "." ++ (schema ++ (text "." ++ e.payload.source.table)))
    | none ↦ prefix ++ (text "." ++ e.payload.source.table)
  ]

  unfoldable pub is_tombstone : ChangeEvent V Schema → Bool
  unfolding op_eq
  is_tombstone e = op_eq e.payload.op delete && is_none e.payload.after

  unfoldable pub is_heartbeat : ChangeEvent V Schema → Bool
  unfolding same
  is_heartbeat e =
      same e.payload.source.table [] || same e.payload.source.table (text "__heartbeat__")

  unfoldable pub event_timestamp_ms : ℤ → ChangeEvent V Schema → ℤ
  event_timestamp_ms now e = elim e.payload.ts_ms [ some ts ↦ ts | none ↦ now ]
