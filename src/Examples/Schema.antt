-- ===== src/Examples/Schema.antt =====
-- Schema evolution: a column is added to a table.
use opencdc.Base.{
  ◌≡◌, refl, ◌↔◌, false, none, some, List, [], ◌∷◌, ◌++◌, Text, text, Map, done, lookup, insert,
  same,
}
use opencdc.Examples.Json.{json as values}
use opencdc.Schema.Types
use opencdc.Schema.Types.{
  DebeziumField, DebeziumSchema, field_of, no_fields, body, as_str, from_str,
}
use opencdc.Schema.Evolution.{
  auto_add, fail, evolve, diff, field_map, is_empty, collect, added_fields,
}
use opencdc.Schema.Policy.{absent, evolve_adds}
use opencdc.Schema.Agreement.{Visits, evolve-fail}
use opencdc.Schema.Agreement.Fields.{Agree}

abbrev column : Text → Text → DebeziumField Text
column name type =
    field_of
      (record {
        field_name = name;
        field_type = type;
        optional = none;
        name = none;
        version = none;
        doc = none;
        parameters = none;
        default = none;
      })
      no_fields

abbrev schema_of : List (DebeziumField Text) → DebeziumSchema Text
schema_of fields = record {
  schema_type = Types.struct;
  fields = some fields;
  optional = none;
  name = none;
  version = none;
  doc = none;
  field = none;
  default = none;
  parameters = none;
}

abbrev before : DebeziumSchema Text
before = schema_of (column (text "id") (text "int32") ∷ [])

abbrev after : DebeziumSchema Text
after = schema_of (column (text "id") (text "int32") ∷ column (text "email") (text "string") ∷ [])

abbrev as_is : Map (DebeziumField Text) → Map (DebeziumField Text)
as_is m = m

differs : is_empty values as_is as_is (diff values as_is as_is before after).changes ≡ false
unfolding diff field_map collect added_fields lookup insert same
differs = refl

evolve_adds_example :
    evolve values as_is as_is auto_add before after
    ≡ done (record before {
      fields = some (
          (column (text "id") (text "int32") ∷ [])
          ++ absent values as_is as_is
              (field_map values as_is as_is before)
              (field_map values as_is as_is after));
    })
evolve_adds_example = evolve_adds values as_is as_is auto_add before after refl differs

email_absent :
    absent values as_is as_is
      (field_map values as_is as_is before)
      (field_map values as_is as_is after)
    ≡ column (text "email") (text "string") ∷ []
unfolding field_map collect lookup insert same
email_absent = refl

before-Visits :
    Visits values as_is as_is
      (field_map values as_is as_is before)
      (field_map values as_is as_is before)
unfolding field_map collect lookup insert same
before-Visits = record { only = (refl, tt); every = λ k f h. h }

after-Visits :
    Visits values as_is as_is
      (field_map values as_is as_is after)
      (field_map values as_is as_is after)
unfolding field_map collect lookup insert same
after-Visits = record { only = (refl, (refl, tt)); every = λ k f h. h }

evolve-fail_example : (evolve values as_is as_is fail before after ≡ done before) ↔ (
    (name : Text)
    → Agree values as_is as_is
        (lookup name (field_map values as_is as_is before))
        (lookup name (field_map values as_is as_is after)))
evolve-fail_example = evolve-fail values as_is as_is before after before-Visits after-Visits
