-- ===== src/Schema/Types.antt =====
-- crates/opencdc-core/src/schema.rs: Debezium's schema types. `V` is serde_json's value type.
use opencdc.Base.{
  ℕ, ◌≡◌, refl, Bool, true, false, Option, none, some, List, [], ◌∷◌, Text, text, same, Map,
}
use opencdc.Base.{if◌then◌else◌, ◌==◌, ◌&&◌, Bool-cases, inl, inr, same_iff, sym, ◌∙◌}
use opencdc.Core.Json.{SerdeJson}

pub data DebeziumSchemaType : Type 0 where
  struct array map string bytes int8 int16 int32 int64 float double boolean decimal :
      DebeziumSchemaType
  timestamp date time micro_timestamp micro_time nano_timestamp nano_time json : DebeziumSchemaType
  unknown : Text → DebeziumSchemaType

unfoldable pub as_str : DebeziumSchemaType → Text
as_str struct = text "struct"
as_str array = text "array"
as_str map = text "map"
as_str string = text "string"
as_str bytes = text "bytes"
as_str int8 = text "int8"
as_str int16 = text "int16"
as_str int32 = text "int32"
as_str int64 = text "int64"
as_str float = text "float"
as_str double = text "double"
as_str boolean = text "boolean"
as_str decimal = text "decimal"
as_str timestamp = text "timestamp"
as_str date = text "date"
as_str time = text "time"
as_str micro_timestamp = text "microtimestamp"
as_str micro_time = text "microtime"
as_str nano_timestamp = text "nanotimestamp"
as_str nano_time = text "nanotime"
as_str json = text "json"
as_str (unknown s) = s

unfoldable pub from_str : Text → DebeziumSchemaType
from_str s =
    if same s (text "struct")
    then struct
    else if same s (text "array")
    then array
    else if same s (text "map")
    then map
    else if same s (text "string")
    then string
    else if same s (text "bytes")
    then bytes
    else if same s (text "int8")
    then int8
    else if same s (text "int16")
    then int16
    else if same s (text "int32")
    then int32
    else if same s (text "int64")
    then int64
    else if same s (text "float")
    then float
    else if same s (text "double")
    then double
    else if same s (text "boolean")
    then boolean
    else if same s (text "decimal")
    then decimal
    else if same s (text "timestamp")
    then timestamp
    else if same s (text "date")
    then date
    else if same s (text "time")
    then time
    else if same s (text "microtimestamp")
    then micro_timestamp
    else if same s (text "microtime")
    then micro_time
    else if same s (text "nanotimestamp")
    then nano_timestamp
    else if same s (text "nanotime")
    then nano_time
    else if same s (text "json")
    then json
    else unknown s

unfoldable pub is_primitive : DebeziumSchemaType → Bool
is_primitive struct = false
is_primitive array = false
is_primitive map = false
is_primitive _ = true

-- The position of a variant, for the derived `==`.
unfoldable pub variant : DebeziumSchemaType → ℕ
variant struct = 0
variant array = 1
variant map = 2
variant string = 3
variant bytes = 4
variant int8 = 5
variant int16 = 6
variant int32 = 7
variant int64 = 8
variant float = 9
variant double = 10
variant boolean = 11
variant decimal = 12
variant timestamp = 13
variant date = 14
variant time = 15
variant micro_timestamp = 16
variant micro_time = 17
variant nano_timestamp = 18
variant nano_time = 19
variant json = 20
variant (unknown s) = 21

abbrev payload : DebeziumSchemaType → Text
payload (unknown s) = s
payload _ = []

-- `==`, derived
unfoldable pub type_eq : DebeziumSchemaType → DebeziumSchemaType → Bool
type_eq a b = variant a == variant b && same (payload a) (payload b)

pub record FieldBody (V : Type 0) : Type 0 where
  pub field_name : Text
  pub field_type : V
  pub optional : Option Bool
  pub name : Option Text
  pub version : Option ℕ
  pub doc : Option Text
  pub parameters : Option (Map Text)
  pub default : Option V

-- A field is its own entries and its nested fields.
mutual
  pub data DebeziumField (V : Type 0) : Type 0 where
    field_of : FieldBody V → NestedFields V → DebeziumField V

  pub data NestedFields (V : Type 0) : Type 0 where
    no_fields : NestedFields V
    some_fields : FieldList V → NestedFields V

  pub data FieldList (V : Type 0) : Type 0 where
    end_fields : FieldList V
    cons_field : DebeziumField V → FieldList V → FieldList V

abbrev pub body : {V : Type 0} → DebeziumField V → FieldBody V
body (field_of b nested) = b

pub record DebeziumSchema (V : Type 0) : Type 0 where
  pub schema_type : DebeziumSchemaType
  pub fields : Option (List (DebeziumField V))
  pub optional : Option Bool
  pub name : Option Text
  pub version : Option ℕ
  pub doc : Option Text
  pub field : Option Text
  pub default : Option V
  pub parameters : Option (Map Text)

module _ (j : SerdeJson) where
  abbrev first_str : List j.Value → Option Text
  first_str [] = none
  first_str (t ∷ types) = j.as_str t

  abbrev or_unresolved : Option Text → DebeziumSchemaType
  or_unresolved none = unknown (text "unresolved")
  or_unresolved (some s) = from_str s

  unfoldable pub resolve_type : DebeziumField j.Value → DebeziumSchemaType
  resolve_type f = elim (j.as_str (body f).field_type) [
    | some s ↦ from_str s
    | none ↦ elim (j.as_array (body f).field_type) [
      | some types ↦ or_unresolved (first_str types)
      | none ↦ unknown (text "unresolved")
    ]
  ]

arm :
    (s t : Text) (a b : DebeziumSchemaType)
    → as_str a ≡ t
    → as_str b ≡ s
    → as_str (if same s t then a else b) ≡ s
arm s t a b ha hb = elim (Bool-cases (same s t)) [
  | inl yes_arm ↦ rw yes_arm (ha ∙ sym ((same_iff s t).0 yes_arm))
  | inr no_arm ↦ rw no_arm hb
]

-- Every text is the name of the type that it is read as.
as_str-from_str : (s : Text) → as_str (from_str s) ≡ s
unfolding from_str as_str
as_str-from_str s = arm s (text "struct") struct _ refl (
    arm s (text "array") array _ refl (
      arm s (text "map") map _ refl (
        arm s (text "string") string _ refl (
          arm s (text "bytes") bytes _ refl (
            arm s (text "int8") int8 _ refl (
              arm s (text "int16") int16 _ refl (
                arm s (text "int32") int32 _ refl (
                  arm s (text "int64") int64 _ refl (
                    arm s (text "float") float _ refl (
                      arm s (text "double") double _ refl (
                        arm s (text "boolean") boolean _ refl (
                          arm s (text "decimal") decimal _ refl (
                            arm s (text "timestamp") timestamp _ refl (
                              arm s (text "date") date _ refl (
                                arm s (text "time") time _ refl (
                                  arm s (text "microtimestamp") micro_timestamp _ refl (
                                    arm s (text "microtime") micro_time _ refl (
                                      arm s (text "nanotimestamp") nano_timestamp _ refl (
                                        arm s (text "nanotime") nano_time _ refl (
                                          arm s (text "json") json _ refl (refl)))))))))))))))))))))
