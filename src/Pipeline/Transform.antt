-- ===== src/Pipeline/Transform.antt =====
-- crates/opencdc-pipeline/src/transform.rs: the trait and its three implementations. A transform may
-- drop an event, change it or fail.
use opencdc.Base.{
  ◌≡◌, refl, Bool, false, not, ◌||◌, Option, none, some, List, [], ◌∷◌, ◌++◌, Text, text, same,
}
use opencdc.Base.{if◌then◌else◌, Outcome, done}
use opencdc.Core.Operation.{
  Operation, create, update, delete, read, truncate, message, op_eq, is_dml, is_snapshot,
}
use opencdc.Core.ChangeEvent.{ChangeEvent}
use opencdc.Pipeline.Error.{PipelineError}

pub record Transform (Event : Type 0) : Type 0 where
  pub name : Text
  pub transform : Event → Outcome PipelineError (Option Event)

pub record FilterTransform : Type 0 where
  pub name : Text
  pub include_ops : List Operation

unfoldable pub only_create : FilterTransform
only_create = record { name = text "only_create"; include_ops = create ∷ [] }

unfoldable pub only_dml : FilterTransform
only_dml = record { name = text "only_dml"; include_ops = create ∷ update ∷ delete ∷ [] }

unfoldable pub exclude_snapshot : FilterTransform
exclude_snapshot = record {
  name = text "exclude_snapshot";
  include_ops = create ∷ update ∷ delete ∷ truncate ∷ message ∷ [];
}

-- `include_ops.contains(&op)`
unfoldable pub contains : List Operation → Operation → Bool
contains [] op = false
contains (o ∷ ops) op = op_eq o op || contains ops op

pub record RenameTransform : Type 0 where
  pub name : Text
  pub table_map : List (Text × Text)
  pub db_map : List (Text × Text)

-- The loop over a map of names: each pair that matches by then is applied.
unfoldable pub renamed : List (Text × Text) → Text → Text
renamed [] name = name
renamed ((from, to) ∷ rest) name = renamed rest (if same name from then to else name)

unfoldable pub remap_table : Text → Text → RenameTransform → RenameTransform
remap_table from to r = record r { table_map = r.table_map ++ ((from, to) ∷ []) }

unfoldable pub remap_database : Text → Text → RenameTransform → RenameTransform
remap_database from to r = record r { db_map = r.db_map ++ ((from, to) ∷ []) }

module _ {V Schema : Type 0} where
  -- `transform` of the filter
  unfoldable pub filter_event :
      FilterTransform → ChangeEvent V Schema → Outcome PipelineError (Option (ChangeEvent V Schema))
  filter_event f event =
      if contains f.include_ops event.payload.op then done (some event) else done none

  unfoldable pub filter_transform : FilterTransform → Transform (ChangeEvent V Schema)
  filter_transform f = record { name = f.name; transform = filter_event f }

  -- `transform` of the renaming
  unfoldable pub rename_event :
      RenameTransform → ChangeEvent V Schema → Outcome PipelineError (Option (ChangeEvent V Schema))
  rename_event r event = done (
      some (record event {
        payload = record event.payload {
          source = record event.payload.source {
            table = renamed r.table_map event.payload.source.table;
            db = renamed r.db_map event.payload.source.db;
          };
        };
      }))

  unfoldable pub rename_transform : RenameTransform → Transform (ChangeEvent V Schema)
  rename_transform r = record { name = r.name; transform = rename_event r }

  -- Logging passes every event on.
  unfoldable pub log_transform : Text → Transform (ChangeEvent V Schema)
  log_transform name = record { name = name; transform = λ event. done (some event) }

dml_ops : (op : Operation) → contains only_dml.include_ops op ≡ is_dml op
unfolding contains only_dml is_dml op_eq
dml_ops create = refl
dml_ops update = refl
dml_ops delete = refl
dml_ops read = refl
dml_ops truncate = refl
dml_ops message = refl

later_ops : (op : Operation) → contains exclude_snapshot.include_ops op ≡ not (is_snapshot op)
unfolding contains exclude_snapshot is_snapshot op_eq
later_ops create = refl
later_ops update = refl
later_ops delete = refl
later_ops read = refl
later_ops truncate = refl
later_ops message = refl

-- The two ready-made filters agree with the operations' own tests: `only_dml` passes exactly the events
-- whose operation is a row change, `exclude_snapshot` exactly those whose operation is not a snapshot read.
pub filter_event_agrees :
    {V Schema : Type 0} (event : ChangeEvent V Schema)
    → (filter_event only_dml event
        ≡ (if is_dml event.payload.op then done (some event) else done none))
      × (filter_event exclude_snapshot event
          ≡ (if not (is_snapshot event.payload.op) then done (some event) else done none))
unfolding filter_event
filter_event_agrees event =
    (rw (dml_ops event.payload.op) refl, rw (later_ops event.payload.op) refl)
