-- ===== src/Schema/Arrow/Bridge.antt =====
-- crates/opencdc-schema/src/arrow_bridge.rs: schemas to Arrow and back.
pub mod RoundTrip
use opencdc.Base.{Bool, Option, none, some, List, [], ◌∷◌, map, Text, text, Map, lookup}
use opencdc.Core.Format.{shown}
use opencdc.Core.Json.{SerdeJson}
use opencdc.Schema.Types as T
use opencdc.Schema.Types.{
  DebeziumSchemaType, as_str, DebeziumField, field_of, NestedFields, no_fields, some_fields,
  FieldList, DebeziumSchema,
}
use opencdc.Schema.Fields.{default_schema}
use opencdc.Schema.Arrow.{
  TimeUnit, second, millisecond, microsecond, nanosecond, DataType, int8, int16, int32, int64,
  uint8, uint16, uint32, uint64, float16, float32, float64, boolean, utf8, utf8_view, large_utf8,
  binary, large_binary, fixed_size_binary, date32, date64, time32, time64, timestamp, decimal128,
  decimal256, struct, list, large_list, fixed_size_list, map_type, other_type, ArrowField,
  arrow_field, Fields, end_fields, cons_field, ArrowSchema, debezium_schema_to_arrow,
}

unfoldable pub arrow_type_to_debezium : DataType → DebeziumSchemaType
arrow_type_to_debezium int8 = T.int8
arrow_type_to_debezium int16 = T.int16
arrow_type_to_debezium int32 = T.int32
arrow_type_to_debezium int64 = T.int64
arrow_type_to_debezium uint8 = T.int16
arrow_type_to_debezium uint16 = T.int32
arrow_type_to_debezium uint32 = T.int64
arrow_type_to_debezium uint64 = T.int64
arrow_type_to_debezium float16 = T.float
arrow_type_to_debezium float32 = T.float
arrow_type_to_debezium float64 = T.double
arrow_type_to_debezium boolean = T.boolean
arrow_type_to_debezium utf8 = T.string
arrow_type_to_debezium utf8_view = T.string
arrow_type_to_debezium large_utf8 = T.string
arrow_type_to_debezium binary = T.bytes
arrow_type_to_debezium large_binary = T.bytes
arrow_type_to_debezium fixed_size_binary = T.bytes
arrow_type_to_debezium date32 = T.date
arrow_type_to_debezium date64 = T.date
arrow_type_to_debezium (time32 u) = T.time
arrow_type_to_debezium (time64 millisecond) = T.time
arrow_type_to_debezium (time64 microsecond) = T.micro_time
arrow_type_to_debezium (time64 nanosecond) = T.nano_time
arrow_type_to_debezium (time64 second) = T.string
arrow_type_to_debezium (timestamp millisecond tz) = T.timestamp
arrow_type_to_debezium (timestamp second tz) = T.timestamp
arrow_type_to_debezium (timestamp microsecond tz) = T.micro_timestamp
arrow_type_to_debezium (timestamp nanosecond tz) = T.nano_timestamp
arrow_type_to_debezium (decimal128 p s) = T.decimal
arrow_type_to_debezium (decimal256 p s) = T.decimal
arrow_type_to_debezium (struct fields) = T.struct
arrow_type_to_debezium list = T.array
arrow_type_to_debezium large_list = T.array
arrow_type_to_debezium fixed_size_list = T.array
arrow_type_to_debezium map_type = T.map
arrow_type_to_debezium other_type = T.string

-- `if let DataType::Decimal128(precision, scale) = field.data_type()`
unfoldable pub decimal_parameters : DataType → Option (Map Text)
decimal_parameters (decimal128 precision scale) =
    some ((text "precision", shown precision) ∷ (text "scale", shown scale) ∷ [])
decimal_parameters _ = none

module _ (j : SerdeJson) where
  unfoldable mutual
    pub arrow_field_to_debezium : ArrowField → DebeziumField j.Value
    arrow_field_to_debezium (arrow_field name t nullable metadata) =
        field_of
          (record {
            field_name = name;
            field_type = j.string (as_str (arrow_type_to_debezium t));
            optional = some nullable;
            name = none;
            version = none;
            doc = lookup (text "doc") metadata;
            parameters = decimal_parameters t;
            default = none;
          })
          (nested_to_debezium t)

    pub nested_to_debezium : DataType → NestedFields j.Value
    nested_to_debezium (struct fields) = some_fields (fields_to_debezium fields)
    nested_to_debezium _ = no_fields

    pub fields_to_debezium : Fields → FieldList j.Value
    fields_to_debezium end_fields = T.end_fields
    fields_to_debezium (cons_field f fs) =
        T.cons_field (arrow_field_to_debezium f) (fields_to_debezium fs)

  unfoldable pub arrow_to_debezium : ArrowSchema → DebeziumSchema j.Value
  arrow_to_debezium s = record default_schema {
    fields = some (map arrow_field_to_debezium s.fields);
    name = lookup (text "debezium.name") s.metadata;
  }

  unfoldable pub debezium_to_arrow : DebeziumSchema j.Value → ArrowSchema
  debezium_to_arrow s = debezium_schema_to_arrow j s
