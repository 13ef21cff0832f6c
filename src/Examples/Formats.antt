-- ===== src/Examples/Formats.antt =====
-- Schemas with columns, Avro, and the columns of the OpenLake sink.
use opencdc.Base.{◌≡◌, none, some, List, [], ◌∷◌, text}
use opencdc.Base.Int.{pos}
use opencdc.Core.ChangeEvent.{ChangeEvent, create_event, delete_event}
use opencdc.Core.ConnectorType.{postgres}
use opencdc.Core.SourceInfo
use opencdc.Examples.Tree.{tree, Tree}
use opencdc.Schema.Types.{DebeziumField, DebeziumSchema, struct}
use opencdc.Schema.Arrow.Bridge.{arrow_to_debezium, debezium_to_arrow}
use opencdc.Schema.Arrow.Bridge.RoundTrip.{normal_field, arrow_to_debezium-debezium_to_arrow}
use opencdc.Schema.Fields
use opencdc.Schema.Fields.{string_field, int64_field, struct_field, optional, default_schema}
use opencdc.Schema.Builder.{new_envelope}
use opencdc.Schema.Builder.Columns.{with_columns, envelope_of, new_envelope-with_columns}
use opencdc.Serde.Avro.{convert_field_to_avro}
use opencdc.Serde.Avro.Complete.{is_done, complete_field, convert_field_complete}
use opencdc.OpenLake.{make_schema, columns}
use opencdc.OpenLake.Columns.{FitsSchema, columns-FitsSchema}

abbrev id_and_name : List (DebeziumField Tree)
id_and_name = int64_field tree (text "id") ∷ optional (string_field tree (text "name")) ∷ []

new_envelope-with_columns_example :
    with_columns tree
      (text "postgresql")
      (text "shop")
      (some (text "public"))
      (text "users")
      id_and_name
      (new_envelope tree (text "postgresql") (text "shop") (some (text "public")) (text "users"))
    ≡ envelope_of tree
        (text "postgresql")
        (text "shop")
        (some (text "public"))
        (text "users")
        id_and_name
new_envelope-with_columns_example =
    new_envelope-with_columns tree (text "postgresql") (text "shop") (some (text "public"))
      (text "users") id_and_name

-- A struct without nested fields in a struct.
abbrev broken : DebeziumField Tree
broken =
    struct_field tree (text "row")
      (string_field tree (text "name") ∷ Fields.new tree (text "inner") struct ∷ [])

convert_field_complete_example :
    is_done (convert_field_to_avro tree broken) ≡ complete_field tree broken
convert_field_complete_example = convert_field_complete tree broken

abbrev events : List (ChangeEvent Tree Unit)
events =
    create_event (pos 5) (tree.string (text "ann")) source
    ∷ delete_event (pos 6) (tree.string (text "bob")) source
    ∷ []
  where
    source : SourceInfo.SourceInfo Tree
    source = SourceInfo.new (pos 4) postgres (text "shop") none (text "users")

columns-FitsSchema_example : FitsSchema 2 make_schema (columns tree Unit events)
columns-FitsSchema_example = columns-FitsSchema tree Unit events

abbrev users_schema : DebeziumSchema Tree
users_schema = record default_schema { fields = some id_and_name; name = some (text "users") }

arrow_to_debezium-debezium_to_arrow_example :
    arrow_to_debezium tree (debezium_to_arrow tree users_schema) ≡ record default_schema {
      fields = some (
          normal_field tree (int64_field tree (text "id"))
          ∷ normal_field tree (optional (string_field tree (text "name")))
          ∷ []);
      name = some (text "users");
    }
unfolding default_schema
arrow_to_debezium-debezium_to_arrow_example = arrow_to_debezium-debezium_to_arrow tree users_schema
