-- ===== src/Schema/Builder.antt =====
-- crates/opencdc-schema/src/builder.rs: the builder of schemas. A builder is the schema it has built.
pub mod Columns
use opencdc.Base.{
  ℕ, Option, none, some, List, [], ◌∷◌, ◌++◌, map, Text, text, same, ◌||◌, if◌then◌else◌,
}
use opencdc.Core.Json.{SerdeJson}
use opencdc.Schema.Types.{
  struct, FieldBody, DebeziumField, field_of, NestedFields, no_fields, some_fields, FieldList,
  end_fields, DebeziumSchema,
}
use opencdc.Schema.Fields.{
  push_field, optional, named, default_schema, string_field, int64_field, struct_field,
}

module _ {V : Type 0} where
  -- `get_or_insert_with(Vec::new).push(..)`
  abbrev push_to : Option (List (DebeziumField V)) → DebeziumField V → List (DebeziumField V)
  push_to none f = f ∷ []
  push_to (some fs) f = fs ++ (f ∷ [])

  abbrev push_nested : NestedFields V → DebeziumField V → NestedFields V
  push_nested no_fields column = some_fields (push_field end_fields column)
  push_nested (some_fields fs) column = some_fields (push_field fs column)

  unfoldable pub new : Text → DebeziumSchema V
  unfolding default_schema
  new name = record default_schema { fields = some []; name = some name; version = some 1 }

  unfoldable pub add_field : DebeziumField V → DebeziumSchema V → DebeziumSchema V
  add_field f s = record s { fields = some (push_to s.fields f) }

  -- The body of the loop of `with_column`
  unfoldable pub column_into : DebeziumField V → DebeziumField V → DebeziumField V
  column_into column (field_of b nested) =
      if same b.field_name (text "before") || same b.field_name (text "after")
      then field_of b (push_nested nested column)
      else field_of b nested

  abbrev with_column_fields :
      DebeziumField V → Option (List (DebeziumField V)) → Option (List (DebeziumField V))
  with_column_fields column none = none
  with_column_fields column (some fs) = some (map (column_into column) fs)

  unfoldable pub with_column : DebeziumField V → DebeziumSchema V → DebeziumSchema V
  unfolding column_into
  with_column column s = record s { fields = with_column_fields column s.fields }

  unfoldable pub with_version : ℕ → DebeziumSchema V → DebeziumSchema V
  with_version version s = record s { version = some version }

module _ (j : SerdeJson) where
  open j use {Value}

  unfoldable pub source_fields : List (DebeziumField Value)
  source_fields =
      string_field j (text "version")
      ∷ string_field j (text "connector")
      ∷ string_field j (text "name")
      ∷ int64_field j (text "ts_ms")
      ∷ optional (string_field j (text "snapshot"))
      ∷ string_field j (text "db")
      ∷ optional (string_field j (text "schema"))
      ∷ string_field j (text "table")
      ∷ optional (int64_field j (text "txId"))
      ∷ optional (int64_field j (text "lsn"))
      ∷ optional (string_field j (text "file"))
      ∷ optional (int64_field j (text "pos"))
      ∷ optional (string_field j (text "gtid"))
      ∷ []

  abbrev pub transaction_fields : List (DebeziumField Value)
  transaction_fields =
      string_field j (text "id")
      ∷ int64_field j (text "total_order")
      ∷ int64_field j (text "data_collections_order")
      ∷ []

  abbrev pub namespace_of : Text → Text → Option Text → Text
  namespace_of connector catalog (some s) = connector ++ (text "." ++ (catalog ++ (text "." ++ s)))
  namespace_of connector catalog none = connector ++ (text "." ++ catalog)

  unfoldable pub new_envelope : Text → Text → Option Text → Text → DebeziumSchema Value
  new_envelope connector catalog schema table =
      let namespace = namespace_of connector catalog schema in
      let table_name = namespace ++ (text "." ++ table) in
      add_field (optional (struct_field j (text "transaction") transaction_fields)) (
        add_field (optional (int64_field j (text "ts_ms"))) (
          add_field (string_field j (text "op")) (
            add_field
              (named (text "io.debezium.connector." ++ (connector ++ text ".Source"))
                (struct_field j (text "source") source_fields))
              (add_field (named table_name (optional (struct_field j (text "after") []))) (
                add_field (named table_name (optional (struct_field j (text "before") [])))
                  (new (table_name ++ text ".Envelope")))))))
