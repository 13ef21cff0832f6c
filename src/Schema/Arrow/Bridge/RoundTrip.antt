-- ===== src/Schema/Arrow/Bridge/RoundTrip.antt =====
-- A schema taken to Arrow and back.
use opencdc.Base.{
  ◌≡◌, refl, Option, none, some, List, [], ◌∷◌, map, Text, text, Map, lookup, insert, same,
}
use opencdc.Core.Format.{shown}
use opencdc.Core.Json.{SerdeJson}
use opencdc.Schema.Types as T
use opencdc.Schema.Types.{
  DebeziumSchemaType, as_str, DebeziumField, field_of, no_fields, DebeziumSchema, body,
  resolve_type,
}
use opencdc.Schema.Fields.{default_schema}
use opencdc.Schema.Arrow.{
  debezium_type_to_arrow, debezium_field_to_arrow, debezium_schema_to_arrow, or_true, precision_of,
  scale_of, doc_metadata, fields_to_arrow, insert_some,
}
use opencdc.Schema.Arrow.Bridge.{
  arrow_type_to_debezium, decimal_parameters, nested_to_debezium, arrow_field_to_debezium,
  arrow_to_debezium, debezium_to_arrow,
}

-- What is left of a type: times and timestamps are in microseconds unless they are in nanoseconds, and
-- what Arrow's schema does not show is a string.
abbrev pub normal : DebeziumSchemaType → DebeziumSchemaType
normal T.timestamp = T.micro_timestamp
normal T.time = T.micro_time
normal T.json = T.string
normal T.struct = T.string
normal T.map = T.string
normal T.array = T.string
normal (T.unknown s) = T.string
normal t = t

abbrev pub normal_parameters : DebeziumSchemaType → Option (Map Text) → Option (Map Text)
normal_parameters T.decimal parameters = some (
    (text "precision", shown (precision_of parameters))
    ∷ (text "scale", shown (scale_of parameters))
    ∷ [])
normal_parameters t parameters = none

module _ (j : SerdeJson) where
  -- What is left of a field.
  abbrev pub normal_field : DebeziumField j.Value → DebeziumField j.Value
  normal_field f =
      field_of
        (record {
          field_name = (body f).field_name;
          field_type = j.string (as_str (normal (resolve_type j f)));
          optional = some (or_true (body f).optional);
          name = none;
          version = none;
          doc = (body f).doc;
          parameters = normal_parameters (resolve_type j f) (body f).parameters;
          default = none;
        })
        no_fields

  type_back :
      (t : DebeziumSchemaType) (parameters : Option (Map Text))
      → arrow_type_to_debezium (debezium_type_to_arrow t parameters) ≡ normal t
  unfolding arrow_type_to_debezium debezium_type_to_arrow
  type_back T.int8 parameters = refl
  type_back T.int16 parameters = refl
  type_back T.int32 parameters = refl
  type_back T.int64 parameters = refl
  type_back T.float parameters = refl
  type_back T.double parameters = refl
  type_back T.boolean parameters = refl
  type_back T.string parameters = refl
  type_back T.bytes parameters = refl
  type_back T.decimal parameters = refl
  type_back T.timestamp parameters = refl
  type_back T.micro_timestamp parameters = refl
  type_back T.nano_timestamp parameters = refl
  type_back T.date parameters = refl
  type_back T.time parameters = refl
  type_back T.micro_time parameters = refl
  type_back T.nano_time parameters = refl
  type_back T.json parameters = refl
  type_back T.struct parameters = refl
  type_back T.map parameters = refl
  type_back T.array parameters = refl
  type_back (T.unknown s) parameters = refl

  parameters_back :
      (t : DebeziumSchemaType) (parameters : Option (Map Text))
      → decimal_parameters (debezium_type_to_arrow t parameters) ≡ normal_parameters t parameters
  unfolding decimal_parameters debezium_type_to_arrow
  parameters_back T.int8 parameters = refl
  parameters_back T.int16 parameters = refl
  parameters_back T.int32 parameters = refl
  parameters_back T.int64 parameters = refl
  parameters_back T.float parameters = refl
  parameters_back T.double parameters = refl
  parameters_back T.boolean parameters = refl
  parameters_back T.string parameters = refl
  parameters_back T.bytes parameters = refl
  parameters_back T.decimal parameters = refl
  parameters_back T.timestamp parameters = refl
  parameters_back T.micro_timestamp parameters = refl
  parameters_back T.nano_timestamp parameters = refl
  parameters_back T.date parameters = refl
  parameters_back T.time parameters = refl
  parameters_back T.micro_time parameters = refl
  parameters_back T.nano_time parameters = refl
  parameters_back T.json parameters = refl
  parameters_back T.struct parameters = refl
  parameters_back T.map parameters = refl
  parameters_back T.array parameters = refl
  parameters_back (T.unknown s) parameters = refl

  nested_back :
      (t : DebeziumSchemaType) (parameters : Option (Map Text))
      → nested_to_debezium j (debezium_type_to_arrow t parameters) ≡ no_fields
  unfolding nested_to_debezium debezium_type_to_arrow
  nested_back T.int8 parameters = refl
  nested_back T.int16 parameters = refl
  nested_back T.int32 parameters = refl
  nested_back T.int64 parameters = refl
  nested_back T.float parameters = refl
  nested_back T.double parameters = refl
  nested_back T.boolean parameters = refl
  nested_back T.string parameters = refl
  nested_back T.bytes parameters = refl
  nested_back T.decimal parameters = refl
  nested_back T.timestamp parameters = refl
  nested_back T.micro_timestamp parameters = refl
  nested_back T.nano_timestamp parameters = refl
  nested_back T.date parameters = refl
  nested_back T.time parameters = refl
  nested_back T.micro_time parameters = refl
  nested_back T.nano_time parameters = refl
  nested_back T.json parameters = refl
  nested_back T.struct parameters = refl
  nested_back T.map parameters = refl
  nested_back T.array parameters = refl
  nested_back (T.unknown s) parameters = refl

  doc_back : (doc : Option Text) → lookup (text "doc") (doc_metadata doc) ≡ doc
  unfolding lookup same
  doc_back none = refl
  doc_back (some doc) = refl

  field_back :
      (f : DebeziumField j.Value)
      → arrow_field_to_debezium j (debezium_field_to_arrow j f) ≡ normal_field f
  unfolding arrow_field_to_debezium debezium_field_to_arrow
  field_back f =
      rw
        (
          type_back (resolve_type j f) (body f).parameters,
          parameters_back (resolve_type j f) (body f).parameters,
          nested_back (resolve_type j f) (body f).parameters,
          doc_back (body f).doc,
        )
        refl

  fields_back :
      (fs : List (DebeziumField j.Value))
      → map (arrow_field_to_debezium j) (map (debezium_field_to_arrow j) fs) ≡ map normal_field fs
  fields_back [] = refl
  fields_back (f ∷ fs) = rw (field_back f, fields_back fs) refl

  abbrev fields_or_nil : Option (List (DebeziumField j.Value)) → List (DebeziumField j.Value)
  fields_or_nil none = []
  fields_or_nil (some fs) = fs

  all_back :
      (fields : Option (List (DebeziumField j.Value)))
      → map (arrow_field_to_debezium j) (fields_to_arrow j fields)
        ≡ map normal_field (fields_or_nil fields)
  all_back none = refl
  all_back (some fs) = fields_back fs

  name_back :
      (name doc : Option Text)
      → lookup
          (text "debezium.name")
          (insert_some (text "debezium.doc") doc (insert_some (text "debezium.name") name []))
        ≡ name
  unfolding lookup insert same
  name_back none none = refl
  name_back none (some d) = refl
  name_back (some n) none = refl
  name_back (some n) (some d) = refl

  -- A schema that is taken to Arrow and back has its name and its fields, in their order. Of each field
  -- the name and the documentation are kept; it is optional unless it said that it is not; times and
  -- timestamps are in microseconds, or in nanoseconds where they were; decimals have their precision and
  -- scale, 38 and 0 where they had none that can be read; JSON, structs, maps, arrays and unknown types
  -- have become strings; all else is gone.
  pub arrow_to_debezium-debezium_to_arrow :
      (s : DebeziumSchema j.Value)
      → arrow_to_debezium j (debezium_to_arrow j s) ≡ record default_schema {
        fields = some (map normal_field (fields_or_nil s.fields));
        name = s.name;
      }
  unfolding arrow_to_debezium debezium_to_arrow debezium_schema_to_arrow
  arrow_to_debezium-debezium_to_arrow s = rw (all_back s.fields, name_back s.name s.doc) refl
