-- ===== src/Serde/Envelope.antt =====
-- crates/opencdc-serde/src/envelope.rs: the schema of an envelope with its table's columns.
use opencdc.Base.{true, false, Option, none, some, List, [], ◌∷◌, ◌++◌, map, Text, text}
use opencdc.Core.Json.{SerdeJson}
use opencdc.Schema.Types.{
  FieldBody, DebeziumField, field_of, NestedFields, no_fields, some_fields, DebeziumSchema,
}
use opencdc.Schema.Fields.{list_of, optional, default_schema, string_field, int64_field, plain}

module _ (j : SerdeJson) where
  open j use {Value}

  unfoldable pub build_source_schema_fields : List (DebeziumField Value)
  build_source_schema_fields =
      string_field j (text "version")
      ∷ string_field j (text "connector")
      ∷ string_field j (text "name")
      ∷ int64_field j (text "ts_ms")
      ∷ optional (string_field j (text "snapshot"))
      ∷ string_field j (text "db")
      ∷ optional (string_field j (text "schema"))
      ∷ string_field j (text "table")
      ∷ optional (int64_field j (text "txId"))
      ∷ optional (int64_field j (text "lsn"))
      ∷ optional (string_field j (text "file"))
      ∷ optional (int64_field j (text "pos"))
      ∷ optional (string_field j (text "gtid"))
      ∷ optional (string_field j (text "resume_token"))
      ∷ []

  -- The closure `mk_fields`: every column becomes optional, under a name of its own.
  unfoldable pub mk_field : Text → DebeziumField Value → DebeziumField Value
  mk_field table_schema_name (field_of b nested) =
      field_of
        (record b {
          optional = some true;
          name = some (table_schema_name ++ (text "." ++ b.field_name));
        })
        nested

  unfoldable pub mk_fields : Text → List (DebeziumField Value) → NestedFields Value
  mk_fields table_schema_name columns =
      some_fields (list_of (map (mk_field table_schema_name) columns))

  abbrev envelope_namespace : Text → Text → Option Text → Text
  envelope_namespace connector_name catalog (some s) =
      connector_name ++ (text "." ++ (catalog ++ (text "." ++ s)))
  envelope_namespace connector_name catalog none = connector_name ++ (text "." ++ catalog)

  abbrev entries : Text → Text → FieldBody Value
  entries name field_type = plain j name (j.string field_type)

  -- `before` and `after`
  abbrev row_field : Text → List (DebeziumField Value) → Text → DebeziumField Value
  row_field table_schema_name columns name =
      field_of
        (record (entries name (text "struct")) {
          optional = some true;
          name = some table_schema_name;
        })
        (mk_fields table_schema_name columns)

  unfoldable pub build_envelope_schema :
      Text → Text → Option Text → Text → List (DebeziumField Value) → DebeziumSchema Value
  build_envelope_schema connector_name catalog schema table columns =
      let table_schema_name =
        envelope_namespace connector_name catalog schema ++ (text "." ++ table) in
      let row = row_field table_schema_name columns in
      record default_schema {
        fields = some (
            row (text "before")
            ∷ row (text "after")
            ∷ field_of
                (record (entries (text "source") (text "struct")) {
                  optional = some false;
                  name = some (text "io.debezium.connector." ++ (connector_name ++ text ".Source"));
                })
                (some_fields (list_of build_source_schema_fields))
            ∷ field_of (record (entries (text "op") (text "string")) { optional = some false })
                no_fields
            ∷ field_of (record (entries (text "ts_ms") (text "int64")) { optional = some true })
                no_fields
            ∷ field_of
                (record (entries (text "transaction") (text "struct")) {
                  optional = some true;
                  name = some (table_schema_name ++ text ".Envelope");
                })
                (some_fields (
                  list_of (
                    string_field j (text "id")
                    ∷ int64_field j (text "total_order")
                    ∷ int64_field j (text "data_collections_order")
                    ∷ [])))
            ∷ []);
        optional = some false;
        name = some (table_schema_name ++ text ".Envelope");
        version = some 1;
      }
