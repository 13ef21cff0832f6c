-- ===== src/Schema/Client/Answers.antt =====
-- A registered schema as the JSON of an answer, and what the client reads of it.
use opencdc.Base.{
  ℕ, ◌%◌, ◌^◌, ◌<◌, ◌≡◌, refl, sym, Bool, true, false, inr, none, [], ◌∷◌, ◌++◌, Text, text, same,
  lookup, Map, done, failed, arith,
}
use opencdc.Base.Int.{pos}
use opencdc.Core.Error.{Error, deserialization}
use opencdc.Core.Format.{decimal}
use opencdc.Core.Json.{SerdeJson, Reads}
use opencdc.Schema.Client.{
  Http, Response, RegisteredSchema, SchemaRegistryConfig, get_request, get_latest_schema,
  get_schema_by_id, registered_of, succeeded, is_success, unwrap_or,
}

module _ (j : SerdeJson) where
  open j use {Value, integer, string, object, get, as_str}

  -- A registered schema as a JSON object: the type may be left out.
  abbrev type_entry : Bool → Text → Map Value
  type_entry true schema_type = (text "schemaType", string schema_type) ∷ []
  type_entry false schema_type = []

  abbrev entries : Bool → RegisteredSchema → Map Value
  entries stated r =
      (text "id", integer (pos r.id))
      ∷ (text "version", integer (pos r.version))
      ∷ (text "subject", string r.subject)
      ∷ (text "schema", string r.schema)
      ∷ type_entry stated r.schema_type

  abbrev pub registered_json : Bool → RegisteredSchema → Value
  registered_json stated r = object (entries stated r)

  -- What a registry answers to a request by id: the schema, and its type unless it is Avro's.
  abbrev id_entries : Bool → RegisteredSchema → Map Value
  id_entries stated r = (text "schema", string r.schema) ∷ type_entry stated r.schema_type

  abbrev pub id_json : Bool → RegisteredSchema → Value
  id_json stated r = object (id_entries stated r)

  module _ (laws : Reads j) (http : Http Value) (config : SchemaRegistryConfig) where
    open laws use {get_object, as_str_string, as_str_null, as_u64_null, as_u64_integer}

    small : (n : ℕ) → n < 2 ^ 32 → n % 2 ^ 32 ≡ n
    small n h = omega arith

    stated_type :
        (stated : Bool) (r : RegisteredSchema)
        → (stated ≡ false → r.schema_type ≡ text "AVRO")
        → unwrap_or (text "AVRO") (as_str (get (text "schemaType") (registered_json stated r)))
          ≡ r.schema_type
    unfolding lookup same
    stated_type true r h =
        rw (get_object (text "schemaType") (entries true r), as_str_string r.schema_type) refl
    stated_type false r h =
        rw (get_object (text "schemaType") (entries false r), as_str_null) (sym (h refl))

    registered_of-json :
        (stated : Bool) (r : RegisteredSchema)
        → r.id < 2 ^ 32
        → r.version < 2 ^ 32
        → (stated ≡ false → r.schema_type ≡ text "AVRO")
        → registered_of j http config (registered_json stated r) ≡ done r
    unfolding registered_of lookup same
    registered_of-json stated r hid hversion h =
        rw (stated_type stated r h) rw
          (get_object (text "id") (entries stated r), as_u64_integer r.id, small r.id hid) rw
          (
            get_object (text "version") (entries stated r),
            as_u64_integer r.version,
            small r.version hversion,
          )
          rw (get_object (text "subject") (entries stated r), as_str_string r.subject) rw
          (get_object (text "schema") (entries stated r), as_str_string r.schema) refl

    abbrev no_id : Error
    no_id = deserialization (text "schema registry response missing 'id'")

    registered_of-id_json :
        (stated : Bool) (r : RegisteredSchema)
        → registered_of j http config (id_json stated r) ≡ failed no_id
    unfolding registered_of lookup same
    registered_of-id_json true r = rw (get_object (text "id") (id_entries true r), as_u64_null) refl
    registered_of-id_json false r =
        rw (get_object (text "id") (id_entries false r), as_u64_null) refl

    -- A registry that answers with a status of success to a request for the latest schema of a subject,
    -- with its id, version, subject and schema and, unless it is an Avro schema, its type: the client
    -- returns the registered schema, and takes the type for Avro where it is left out. To a request by id
    -- the registry answers with the schema and its type alone: the client then returns the error of an
    -- answer without an id.
    pub get_schema-json :
        (stated : Bool) (r : RegisteredSchema) (by_id latest : Response Value)
        → r.id < 2 ^ 32
        → r.version < 2 ^ 32
        → (stated ≡ false → r.schema_type ≡ text "AVRO")
        → is_success by_id.status ≡ true
        → by_id.json ≡ inr (id_json stated r)
        → is_success latest.status ≡ true
        → latest.json ≡ inr (registered_json stated r)
        → http.send get_request (config.url ++ (text "/schemas/ids/" ++ decimal r.id)) none
          ≡ inr by_id
        → http.send get_request
            (config.url ++ (text "/subjects/" ++ (r.subject ++ text "/versions/latest")))
            none
          ≡ inr latest
        → (get_latest_schema j http config r.subject ≡ done r)
          × (get_schema_by_id j http config r.id
              ≡ failed (deserialization (text "schema registry response missing 'id'")))
    unfolding get_schema_by_id get_latest_schema succeeded
    get_schema-json stated r by_id latest hid hversion h ok body ok' body' asked asked' = (
      rw (asked', ok', body') (registered_of-json stated r hid hversion h),
      rw (asked, ok, body) (registered_of-id_json stated r),
    )
