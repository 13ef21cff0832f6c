-- ===== src/Serde/Avro/Complete.antt =====
-- Which fields have an Avro schema. The conversion goes into the nested fields of structs only.
use opencdc.Base.{
  ◌≡◌, refl, ap, ◌∙◌, Bool, true, false, ◌&&◌, Option, none, some, List, Outcome, done, failed,
  panicked, ◌>>=◌,
}
use opencdc.Core.Error.{Error}
use opencdc.Core.Json.{SerdeJson}
use opencdc.Schema.Types.{
  DebeziumSchemaType, struct, array, map, string, bytes, int8, int16, int32, int64, float, double,
  boolean, decimal, timestamp, date, time, micro_timestamp, micro_time, nano_timestamp, nano_time,
  json, unknown, FieldBody, DebeziumField, field_of, NestedFields, no_fields, some_fields,
  FieldList, end_fields, cons_field, resolve_type,
}
use opencdc.Serde.Avro.{
  struct_to_avro, avro_type, convert_field_to_avro, convert_nested, convert_list, collect,
}

abbrev pub is_done : {E A : Type 0} → Outcome E A → Bool
is_done (done a) = true
is_done (failed e) = false
is_done panicked = false

is_done_then :
    {E A B : Type 0} (m : Outcome E A) (f : A → Outcome E B)
    → ((a : A) → is_done (f a) ≡ true)
    → is_done (m >>= f) ≡ is_done m
is_done_then (done a) f h = h a
is_done_then (failed e) f h = refl
is_done_then panicked f h = refl

-- A struct needs nested fields, and those all their parts; of another type, an array's or a map's too,
-- nested fields are not looked at.
abbrev pub complete_type : DebeziumSchemaType → Option Bool → Bool
complete_type struct none = false
complete_type struct (some nested) = nested
complete_type _ nested = true

module _ (j : SerdeJson) where
  unfoldable mutual
    -- Every struct that is reached from the field through structs alone, itself included, has nested
    -- fields.
    pub complete_field : DebeziumField j.Value → Bool
    complete_field (field_of b nested) =
        complete_type (resolve_type j (field_of b nested)) (complete_nested nested)

    pub complete_nested : NestedFields j.Value → Option Bool
    complete_nested no_fields = none
    complete_nested (some_fields fs) = some (complete_list fs)

    pub complete_list : FieldList j.Value → Bool
    complete_list end_fields = true
    complete_list (cons_field f fs) = complete_field f && complete_list fs

  abbrev done_nested : Option (Outcome Error (List j.Value)) → Option Bool
  done_nested none = none
  done_nested (some m) = some (is_done m)

  avro_type_complete :
      (t : DebeziumSchemaType) (b : FieldBody j.Value)
      (nested : Option (Outcome Error (List j.Value)))
      → is_done (avro_type j t b nested) ≡ complete_type t (done_nested nested)
  unfolding avro_type struct_to_avro
  avro_type_complete struct b none = refl
  avro_type_complete struct b (some m) = is_done_then m _ (λ fields. refl)
  avro_type_complete array b nested = refl
  avro_type_complete map b nested = refl
  avro_type_complete string b nested = refl
  avro_type_complete bytes b nested = refl
  avro_type_complete int8 b nested = refl
  avro_type_complete int16 b nested = refl
  avro_type_complete int32 b nested = refl
  avro_type_complete int64 b nested = refl
  avro_type_complete float b nested = refl
  avro_type_complete double b nested = refl
  avro_type_complete boolean b nested = refl
  avro_type_complete decimal b nested = refl
  avro_type_complete timestamp b nested = refl
  avro_type_complete date b nested = refl
  avro_type_complete time b nested = refl
  avro_type_complete micro_timestamp b nested = refl
  avro_type_complete micro_time b nested = refl
  avro_type_complete nano_timestamp b nested = refl
  avro_type_complete nano_time b nested = refl
  avro_type_complete json b nested = refl
  avro_type_complete (unknown s) b nested = refl

  collect-is_done :
      (first : Outcome Error j.Value) (rest : Outcome Error (List j.Value))
      → is_done (collect j first rest) ≡ is_done first && is_done rest
  collect-is_done (done v) rest = is_done_then rest _ (λ vs. refl)
  collect-is_done (failed e) rest = refl
  collect-is_done panicked rest = refl

  mutual
    unfolding convert_field_to_avro complete_field

    field_complete :
        (f : DebeziumField j.Value) → is_done (convert_field_to_avro j f) ≡ complete_field f
    field_complete (field_of b nested) =
        is_done_then (avro_type j (resolve_type j (field_of b nested)) b (convert_nested j nested))
          _ (λ t. refl)
        ∙ avro_type_complete (resolve_type j (field_of b nested)) b (convert_nested j nested)
        ∙ ap (complete_type (resolve_type j (field_of b nested))) (nested_complete nested)

    nested_complete :
        (n : NestedFields j.Value) → done_nested (convert_nested j n) ≡ complete_nested n
    nested_complete no_fields = refl
    nested_complete (some_fields fs) = ap some (list_complete fs)

    list_complete : (fs : FieldList j.Value) → is_done (convert_list j fs) ≡ complete_list fs
    list_complete end_fields = refl
    list_complete (cons_field f fs) =
        collect-is_done (convert_field_to_avro j f) (convert_list j fs)
        ∙ ap (λ b. b && is_done (convert_list j fs)) (field_complete f)
        ∙ ap (λ b. complete_field f && b) (list_complete fs)

  -- The conversion of a field returns an Avro schema exactly when every struct that is reached from the
  -- field through structs alone, itself included, has nested fields; what is nested in an array or in a
  -- field of another type does not matter.
  pub convert_field_complete :
      (f : DebeziumField j.Value) → is_done (convert_field_to_avro j f) ≡ complete_field f
  convert_field_complete f = field_complete f
