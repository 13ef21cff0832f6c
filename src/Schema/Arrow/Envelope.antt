-- ===== src/Schema/Arrow/Envelope.antt =====
-- crates/opencdc-core/src/arrow.rs: `make_envelope_schema`, and the names of schemas.
use opencdc.Base.{true, false, Bool, some, List, [], ◌∷◌, ◌++◌, map, Text, text, first_part}
use opencdc.Core.Json.{SerdeJson}
use opencdc.Schema.Types.{DebeziumField, field_of, no_fields, some_fields, DebeziumSchema}
use opencdc.Schema.Fields.{list_of, default_schema, plain}

unfoldable pub schema_name_for_table : Text → Text → Text
schema_name_for_table namespace table = namespace ++ (text "." ++ table)

unfoldable pub envelope_name_for_table : Text → Text → Text
envelope_name_for_table namespace table = namespace ++ (text "." ++ (table ++ text ".Envelope"))

unfoldable pub key_schema_name_for_table : Text → Text → Text
key_schema_name_for_table namespace table = namespace ++ (text "." ++ (table ++ text ".Key"))

module _ (j : SerdeJson) where
  open j use {Value}

  -- A field of which the name, the type and whether it is optional are given.
  abbrev flagged_field : Text → Text → Bool → DebeziumField Value
  flagged_field name field_type flag =
      field_of (record (plain j name (j.string field_type)) { optional = some flag }) no_fields

  unfoldable pub make_source_schema_fields : List (DebeziumField Value)
  make_source_schema_fields =
      flagged_field (text "version") (text "string") false
      ∷ flagged_field (text "connector") (text "string") false
      ∷ flagged_field (text "name") (text "string") false
      ∷ flagged_field (text "ts_ms") (text "int64") false
      ∷ flagged_field (text "snapshot") (text "string") true
      ∷ flagged_field (text "db") (text "string") false
      ∷ flagged_field (text "schema") (text "string") true
      ∷ flagged_field (text "table") (text "string") false
      ∷ flagged_field (text "txId") (text "int64") true
      ∷ flagged_field (text "lsn") (text "int64") true
      ∷ flagged_field (text "xmin") (text "int64") true
      ∷ flagged_field (text "file") (text "string") true
      ∷ flagged_field (text "pos") (text "int64") true
      ∷ []

  -- The closures of `before_fields` and `after_fields`: every column becomes optional, under a name of
  -- its own.
  unfoldable pub row_column : Text → DebeziumField Value → DebeziumField Value
  row_column table_schema_name (field_of b nested) =
      field_of
        (record b {
          optional = some true;
          name = some (table_schema_name ++ (text "." ++ b.field_name));
        })
        nested

  abbrev row_struct : Text → List (DebeziumField Value) → Text → DebeziumField Value
  row_struct table_schema_name columns name =
      field_of
        (record (plain j name (j.string (text "struct"))) {
          optional = some true;
          name = some table_schema_name;
        })
        (some_fields (list_of (map (row_column table_schema_name) columns)))

  unfoldable pub make_envelope_schema :
      Text → Text → List (DebeziumField Value) → DebeziumSchema Value
  make_envelope_schema namespace table columns =
      let table_schema_name = schema_name_for_table namespace table in
      record default_schema {
        fields = some (
            row_struct table_schema_name columns (text "before")
            ∷ row_struct table_schema_name columns (text "after")
            ∷ field_of
                (record (plain j (text "source") (j.string (text "struct"))) {
                  optional = some false;
                  name =
                      some
                        (text "io.debezium.connector." ++ (first_part namespace ++ text ".Source"));
                })
                (some_fields (list_of make_source_schema_fields))
            ∷ flagged_field (text "op") (text "string") false
            ∷ flagged_field (text "ts_ms") (text "int64") true
            ∷ []);
        optional = some false;
        name = some (table_schema_name ++ text ".Envelope");
        version = some 1;
      }
