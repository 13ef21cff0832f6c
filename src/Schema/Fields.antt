-- ===== src/Schema/Fields.antt =====
-- crates/opencdc-core/src/schema.rs: the builders of fields, the default schema, and `is_optional`.
use opencdc.Base.{
  ℕ, Bool, true, false, Option, none, some, List, [], ◌∷◌, Text, text, same, Map, insert, ◌||◌,
}
use opencdc.Core.Json.{SerdeJson}
use opencdc.Schema.Types.{
  DebeziumSchemaType, struct, string, int32, int64, boolean, double, as_str, FieldBody,
  DebeziumField, field_of, no_fields, some_fields, FieldList, end_fields, cons_field,
  DebeziumSchema,
}

abbrev or_default : Option (Map Text) → Map Text
or_default none = []
or_default (some m) = m

module _ {V : Type 0} where
  -- `Some(fields)`
  unfoldable pub list_of : List (DebeziumField V) → FieldList V
  list_of [] = end_fields
  list_of (f ∷ fs) = cons_field f (list_of fs)

  -- `push`
  unfoldable pub push_field : FieldList V → DebeziumField V → FieldList V
  push_field end_fields column = cons_field column end_fields
  push_field (cons_field f fs) column = cons_field f (push_field fs column)

  unfoldable pub optional : DebeziumField V → DebeziumField V
  optional (field_of b nested) = field_of (record b { optional = some true }) nested

  unfoldable pub named : Text → DebeziumField V → DebeziumField V
  named name (field_of b nested) = field_of (record b { name = some name }) nested

  unfoldable pub with_version : ℕ → DebeziumField V → DebeziumField V
  with_version version (field_of b nested) = field_of (record b { version = some version }) nested

  unfoldable pub with_doc : Text → DebeziumField V → DebeziumField V
  with_doc doc (field_of b nested) = field_of (record b { doc = some doc }) nested

  unfoldable pub with_parameter : Text → Text → DebeziumField V → DebeziumField V
  with_parameter key value (field_of b nested) =
      field_of (record b { parameters = some (insert key value (or_default b.parameters)) }) nested

  -- `DebeziumSchema::default`
  unfoldable pub default_schema : DebeziumSchema V
  default_schema = record {
    schema_type = struct;
    fields = none;
    optional = none;
    name = none;
    version = none;
    doc = none;
    field = none;
    default = none;
    parameters = none;
  }

module _ (j : SerdeJson) where
  open j use {Value}

  -- The entries of a field of which only the name and the type are given.
  abbrev pub plain : Text → Value → FieldBody Value
  plain name field_type = record {
    field_name = name;
    field_type = field_type;
    optional = none;
    name = none;
    version = none;
    doc = none;
    parameters = none;
    default = none;
  }

  -- `DebeziumField::new`
  unfoldable pub new : Text → DebeziumSchemaType → DebeziumField Value
  new name t = field_of (plain name (j.string (as_str t))) no_fields

  unfoldable pub string_field : Text → DebeziumField Value
  unfolding new
  string_field name = new name string

  unfoldable pub int32_field : Text → DebeziumField Value
  unfolding new
  int32_field name = new name int32

  unfoldable pub int64_field : Text → DebeziumField Value
  unfolding new
  int64_field name = new name int64

  unfoldable pub boolean_field : Text → DebeziumField Value
  unfolding new
  boolean_field name = new name boolean

  unfoldable pub float64_field : Text → DebeziumField Value
  unfolding new
  float64_field name = new name double

  unfoldable pub struct_field : Text → List (DebeziumField Value) → DebeziumField Value
  struct_field name fields =
      field_of (plain name (j.string (text "struct"))) (some_fields (list_of fields))

  -- `types.iter().any(|t| t == "null")`: a value equals a text where it is that string.
  abbrev is_null_text : Option Text → Bool
  is_null_text none = false
  is_null_text (some s) = same s (text "null")

  abbrev any_null : List Value → Bool
  any_null [] = false
  any_null (t ∷ types) = is_null_text (j.as_str t) || any_null types

  abbrev unwrap_or_false : Option Bool → Bool
  unwrap_or_false none = false
  unwrap_or_false (some b) = b

  abbrev optional_by : Option Bool → Option (List Value) → Bool
  optional_by flag (some types) = any_null types
  optional_by flag none = unwrap_or_false flag

  unfoldable pub is_optional : DebeziumField Value → Bool
  is_optional (field_of b nested) = optional_by b.optional (j.as_array b.field_type)
