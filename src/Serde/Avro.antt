-- ===== src/Serde/Avro.antt =====
-- crates/opencdc-serde/src/avro.rs: Avro schemas, as JSON values, of Debezium's fields and schemas.
pub mod Complete
pub mod Envelope
use opencdc.Base.{
  Bool, true, false, Option, none, some, List, [], ◌∷◌, ◌++◌, if◌then◌else◌, Text, text, Map,
  lookup, insert, Outcome, done, failed, panicked, ◌>>=◌,
}
use opencdc.Core.Error.{Error, schema}
use opencdc.Core.Json.{SerdeJson}
use opencdc.Schema.Types.{
  DebeziumSchemaType, struct, array, map, string, bytes, int8, int16, int32, int64, float, double,
  boolean, decimal, timestamp, date, time, micro_timestamp, micro_time, nano_timestamp, nano_time,
  json, unknown, FieldBody, DebeziumField, field_of, NestedFields, no_fields, some_fields,
  FieldList, end_fields, cons_field, DebeziumSchema, resolve_type,
}

-- `unwrap_or(false)`
abbrev pub flagged : Option Bool → Bool
flagged none = false
flagged (some b) = b

module _ (j : SerdeJson) where
  open j use {Value, null, object}

  abbrev word : Text → Value
  word s = j.string s

  unfoldable pub primitive_type_to_avro : DebeziumSchemaType → Value
  primitive_type_to_avro bytes = word (text "bytes")
  primitive_type_to_avro int8 = word (text "int")
  primitive_type_to_avro int16 = word (text "int")
  primitive_type_to_avro int32 = word (text "int")
  primitive_type_to_avro int64 = word (text "long")
  primitive_type_to_avro float = word (text "float")
  primitive_type_to_avro double = word (text "double")
  primitive_type_to_avro boolean = word (text "boolean")
  primitive_type_to_avro _ = word (text "string")

  abbrev logical : Text → Text → Value
  logical base kind = object ((text "type", word base) ∷ (text "logicalType", word kind) ∷ [])

  -- `if let Some(v) = v { avro_type[key] = Value::String(v) }`
  abbrev with_text : Text → Option Text → Map Value → Map Value
  with_text key none m = m
  with_text key (some v) m = insert key (word v) m

  abbrev parameter : Text → Option (Map Text) → Option Text
  parameter key none = none
  parameter key (some params) = lookup key params

  abbrev record_entries : List Value → Map Value
  record_entries fields = (text "type", word (text "record")) ∷ (text "fields", j.array fields) ∷ []

  unfoldable pub struct_to_avro :
      FieldBody Value → Option (Outcome Error (List Value)) → Outcome Error Value
  struct_to_avro b none =
      failed (schema (text "struct field '" ++ (b.field_name ++ text "' has no fields")))
  struct_to_avro b (some nested) = do
    fields ← nested
    done (object (with_text (text "name") b.name (record_entries fields)))

  -- `match dt`
  unfoldable pub avro_type :
      DebeziumSchemaType
      → FieldBody Value
      → Option (Outcome Error (List Value))
      → Outcome Error Value
  avro_type struct b nested = struct_to_avro b nested
  avro_type array b nested =
      done (object ((text "type", word (text "array")) ∷ (text "items", word (text "string")) ∷ []))
  avro_type map b nested =
      done (object ((text "type", word (text "map")) ∷ (text "values", word (text "string")) ∷ []))
  avro_type decimal b nested = done (
      object (
        with_text (text "scale") (parameter (text "scale") b.parameters) (
          with_text (text "precision") (parameter (text "precision") b.parameters) (
            (text "type", word (text "bytes"))
            ∷ (text "logicalType", word (text "decimal"))
            ∷ []))))
  avro_type timestamp b nested = done (logical (text "long") (text "timestamp-micros"))
  avro_type micro_timestamp b nested = done (logical (text "long") (text "timestamp-micros"))
  avro_type nano_timestamp b nested = done (logical (text "long") (text "timestamp-nanos"))
  avro_type date b nested = done (logical (text "int") (text "date"))
  avro_type time b nested = done (logical (text "long") (text "time-micros"))
  avro_type micro_time b nested = done (logical (text "long") (text "time-micros"))
  avro_type nano_time b nested = done (logical (text "long") (text "time-nanos"))
  avro_type t b nested = done (primitive_type_to_avro t)

  -- `if optional { json!([avro_type, "null"]) } else { json!({"field": .., "type": ..}) }`
  unfoldable pub field_value : FieldBody Value → Value → Value
  field_value b t =
      if flagged b.optional
      then j.array (t ∷ word (text "null") ∷ [])
      else object ((text "field", word b.field_name) ∷ (text "type", t) ∷ [])

  -- `map(..).collect::<Result<Vec<_>>>()` of the fields behind the first
  abbrev pub collect : Outcome Error Value → Outcome Error (List Value) → Outcome Error (List Value)
  collect first rest = do v ← first; vs ← rest; done (v ∷ vs)

  unfoldable mutual
    pub convert_field_to_avro : DebeziumField Value → Outcome Error Value
    convert_field_to_avro (field_of b nested) = do
      t ← avro_type (resolve_type j (field_of b nested)) b (convert_nested nested)
      done (field_value b t)

    pub convert_nested : NestedFields Value → Option (Outcome Error (List Value))
    convert_nested no_fields = none
    convert_nested (some_fields fs) = some (convert_list fs)

    pub convert_list : FieldList Value → Outcome Error (List Value)
    convert_list end_fields = done []
    convert_list (cons_field f fs) = collect (convert_field_to_avro f) (convert_list fs)

  unfoldable pub convert_fields : List (DebeziumField Value) → Outcome Error (List Value)
  convert_fields [] = done []
  convert_fields (f ∷ fs) = collect (convert_field_to_avro f) (convert_fields fs)

  abbrev item_of : Option (List (DebeziumField Value)) → Outcome Error (DebeziumField Value)
  item_of (some (f ∷ fs)) = done f
  item_of _ = failed (schema (text "array schema has no item field"))

  abbrev struct_fields :
      Option (List (DebeziumField Value)) → Outcome Error (List (DebeziumField Value))
  struct_fields (some fs) = done fs
  struct_fields none = failed (schema (text "struct schema has no fields"))

  unfoldable pub convert_schema : DebeziumSchema Value → Outcome Error Value
  convert_schema s = by_type s.schema_type
    where
      by_type : DebeziumSchemaType → Outcome Error Value
      by_type struct = do
        fields ← struct_fields s.fields
        avro_fields ← convert_fields fields
        done (object (with_text (text "name") s.name (record_entries avro_fields)))
      by_type array = do
        items ← item_of s.fields
        item_type ← convert_field_to_avro items
        done (object ((text "type", word (text "array")) ∷ (text "items", item_type) ∷ []))
      by_type map =
          done
            (object ((text "type", word (text "map")) ∷ (text "values", word (text "string")) ∷ []))
      by_type t = done (primitive_type_to_avro t)

  -- `debezium_schema_to_avro_json`
  unfoldable pub schema_to_avro : DebeziumSchema Value → Outcome Error Value
  schema_to_avro s = convert_schema s

  unfoldable pub table_fields_to_avro_json :
      Text → List (DebeziumField Value) → Option Text → Outcome Error Value
  table_fields_to_avro_json name fields namespace = do
    avro_fields ← convert_fields fields
    done (
        object (
          with_text (text "namespace") namespace (
            (text "type", word (text "record"))
            ∷ (text "name", word name)
            ∷ (text "fields", j.array avro_fields)
            ∷ [])))
