-- ===== src/Schema/Arrow.antt =====
-- crates/opencdc-core/src/arrow.rs: Arrow's types, fields and schemas for those of Debezium. Of Arrow's
-- types these are the ones that the source names, and one for all others.
pub mod Bridge
pub mod Envelope
use opencdc.Base.{
  ℕ, Bool, true, false, Option, none, some, List, [], ◌∷◌, map, Text, text, Map, lookup, insert,
  ltb, if◌then◌else◌,
}
use opencdc.Base.Int.{ℤ, pos, negsuc, i8_half}
use opencdc.Core.ParseInt.{parse_u32, parse_signed}
use opencdc.Core.Json.{SerdeJson}
use opencdc.Schema.Types as T
use opencdc.Schema.Types.{
  DebeziumSchemaType, FieldBody, DebeziumField, DebeziumSchema, field_of, body, resolve_type,
}

pub data TimeUnit : Type 0 where
  second millisecond microsecond nanosecond : TimeUnit

mutual
  pub data DataType : Type 0 where
    int8 int16 int32 int64 uint8 uint16 uint32 uint64 : DataType
    float16 float32 float64 boolean utf8 utf8_view large_utf8 : DataType
    binary large_binary fixed_size_binary date32 date64 : DataType
    time32 time64 : TimeUnit → DataType
    timestamp : TimeUnit → Option Text → DataType
    decimal128 decimal256 : ℤ → ℤ → DataType
    struct : Fields → DataType
    list large_list fixed_size_list map_type other_type : DataType

  pub data ArrowField : Type 0 where
    -- the name, the type, whether it is nullable, and the metadata
    arrow_field : Text → DataType → Bool → Map Text → ArrowField

  pub data Fields : Type 0 where
    end_fields : Fields
    cons_field : ArrowField → Fields → Fields

pub record ArrowSchema : Type 0 where
  pub fields : List ArrowField
  pub metadata : Map Text

-- `v.parse::<u8>().ok()`
abbrev within_u8 : Option ℤ → Option ℤ
within_u8 (some (pos n)) = if ltb n 256 then some (pos n) else none
within_u8 _ = none

-- `parameters.and_then(|p| p.get(key)).and_then(|v| v.parse().ok()).unwrap_or(d)`
abbrev parameter : (Text → Option ℤ) → ℤ → Option Text → ℤ
parameter parse d none = d
parameter parse d (some v) = elim (parse v) [ none ↦ d | some n ↦ n ]

abbrev get_parameter : Text → Option (Map Text) → Option Text
get_parameter key none = none
get_parameter key (some p) = lookup key p

unfoldable pub precision_of : Option (Map Text) → ℤ
precision_of parameters =
    parameter (λ v. within_u8 (parse_u32 v)) (pos 38) (get_parameter (text "precision") parameters)

unfoldable pub scale_of : Option (Map Text) → ℤ
scale_of parameters =
    parameter (parse_signed i8_half) (pos 0) (get_parameter (text "scale") parameters)

unfoldable pub debezium_type_to_arrow : DebeziumSchemaType → Option (Map Text) → DataType
debezium_type_to_arrow T.int8 parameters = int8
debezium_type_to_arrow T.int16 parameters = int16
debezium_type_to_arrow T.int32 parameters = int32
debezium_type_to_arrow T.int64 parameters = int64
debezium_type_to_arrow T.float parameters = float32
debezium_type_to_arrow T.double parameters = float64
debezium_type_to_arrow T.boolean parameters = boolean
debezium_type_to_arrow T.string parameters = utf8
debezium_type_to_arrow T.bytes parameters = binary
debezium_type_to_arrow T.decimal parameters =
    decimal128 (precision_of parameters) (scale_of parameters)
debezium_type_to_arrow T.timestamp parameters = timestamp microsecond none
debezium_type_to_arrow T.micro_timestamp parameters = timestamp microsecond none
debezium_type_to_arrow T.nano_timestamp parameters = timestamp nanosecond none
debezium_type_to_arrow T.date parameters = date64
debezium_type_to_arrow T.time parameters = time64 microsecond
debezium_type_to_arrow T.micro_time parameters = time64 microsecond
debezium_type_to_arrow T.nano_time parameters = time64 nanosecond
debezium_type_to_arrow T.json parameters = utf8
debezium_type_to_arrow T.struct parameters = utf8
debezium_type_to_arrow T.map parameters = utf8
debezium_type_to_arrow T.array parameters = utf8
debezium_type_to_arrow (T.unknown s) parameters = utf8

-- `unwrap_or(true)`
abbrev pub or_true : Option Bool → Bool
or_true none = true
or_true (some b) = b

abbrev doc_metadata : Option Text → Map Text
doc_metadata none = []
doc_metadata (some doc) = (text "doc", doc) ∷ []

abbrev insert_some : Text → Option Text → Map Text → Map Text
insert_some key none m = m
insert_some key (some v) m = insert key v m

module _ (j : SerdeJson) where
  unfoldable pub debezium_field_to_arrow : DebeziumField j.Value → ArrowField
  debezium_field_to_arrow f =
      arrow_field (body f).field_name
        (debezium_type_to_arrow (resolve_type j f) (body f).parameters) (or_true (body f).optional)
        (doc_metadata (body f).doc)

  abbrev fields_to_arrow : Option (List (DebeziumField j.Value)) → List ArrowField
  fields_to_arrow none = []
  fields_to_arrow (some fs) = map debezium_field_to_arrow fs

  unfoldable pub debezium_schema_to_arrow : DebeziumSchema j.Value → ArrowSchema
  debezium_schema_to_arrow s = record {
    fields = fields_to_arrow s.fields;
    metadata =
        insert_some (text "debezium.doc") s.doc (insert_some (text "debezium.name") s.name []);
  }

  unfoldable pub table_fields_to_arrow_schema : Text → List (DebeziumField j.Value) → ArrowSchema
  table_fields_to_arrow_schema name fields = record {
    fields = map debezium_field_to_arrow fields;
    metadata = (text "debezium.name", name) ∷ [];
  }
