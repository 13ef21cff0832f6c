-- ===== src/Serde/Avro/Envelope.antt =====
-- crates/opencdc-serde/src/avro.rs: `make_envelope_avro_schema`.
use opencdc.Base.{[], ◌∷◌, ◌++◌, first_part, List, Text, text, Outcome, done, ◌>>=◌}
use opencdc.Core.Error.{Error}
use opencdc.Core.Json.{SerdeJson}
use opencdc.Schema.Types.{DebeziumField}
use opencdc.Serde.Avro.{convert_fields}

module _ (j : SerdeJson) where
  open j use {Value, null, object, array}

  abbrev word : Text → Value
  word s = j.string s

  abbrev typed : Text → Value → Value
  typed name t = object ((text "field", word name) ∷ (text "type", t) ∷ [])

  abbrev nullable : Text → Value → Value
  nullable name t = object (
      (text "field", word name)
      ∷ (text "type", array (word (text "null") ∷ t ∷ []))
      ∷ (text "default", null)
      ∷ [])

  abbrev record_in : Text → Text → List Value → Value
  record_in name namespace fields = object (
      (text "type", word (text "record"))
      ∷ (text "name", word name)
      ∷ (text "namespace", word namespace)
      ∷ (text "fields", array fields)
      ∷ [])

  unfoldable pub source_avro_fields : List Value
  source_avro_fields =
      typed (text "version") (word (text "string"))
      ∷ typed (text "connector") (word (text "string"))
      ∷ typed (text "name") (word (text "string"))
      ∷ typed (text "ts_ms") (word (text "long"))
      ∷ nullable (text "snapshot") (word (text "string"))
      ∷ typed (text "db") (word (text "string"))
      ∷ nullable (text "schema") (word (text "string"))
      ∷ typed (text "table") (word (text "string"))
      ∷ nullable (text "txId") (word (text "long"))
      ∷ nullable (text "lsn") (word (text "long"))
      ∷ []

  abbrev transaction_avro_fields : List Value
  transaction_avro_fields =
      typed (text "id") (word (text "string"))
      ∷ typed (text "total_order") (word (text "long"))
      ∷ typed (text "data_collections_order") (word (text "long"))
      ∷ []

  unfoldable pub make_envelope_avro_schema :
      Text → Text → List (DebeziumField Value) → Outcome Error Value
  make_envelope_avro_schema namespace table columns = do
    let table_full_name = namespace ++ (text "." ++ table)
    column_avro_fields ← convert_fields j columns
    let table_schema = record_in table namespace column_avro_fields
    let source_namespace = text "io.debezium.connector." ++ first_part namespace
    done (
        record_in (text "Envelope") table_full_name (
          nullable (text "before") table_schema
          ∷ nullable (text "after") table_schema
          ∷ typed (text "source") (record_in (text "Source") source_namespace source_avro_fields)
          ∷ typed (text "op") (word (text "string"))
          ∷ nullable (text "ts_ms") (word (text "long"))
          ∷ nullable (text "transaction")
              (record_in (text "Transaction") table_full_name transaction_avro_fields)
          ∷ []))
