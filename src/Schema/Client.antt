-- ===== src/Schema/Client.antt =====
-- crates/opencdc-schema/src/registry.rs: the client of the schema registry. HTTP is reqwest's, a
-- parameter: what a request comes to, and how a response's body is read.
pub mod Answers
use opencdc.Base.{
  ℕ, ◌+◌, ◌%◌, ◌^◌, Bool, true, false, not, ◌&&◌, ◌⊎◌, inl, inr, Option, none, some, List, [], ◌∷◌,
  ◌++◌, leb, ltb, if◌then◌else◌, Text, text, same, Outcome, done, failed, ◌>>=◌,
}
use opencdc.Core.Error.{Error, other, deserialization}
use opencdc.Core.Format.{decimal}
use opencdc.Core.Json.{SerdeJson}

pub data Method : Type 0 where
  get_request post_request delete_request : Method

-- What is read of a response: its status, its body as a text (empty where it cannot be read), as a
-- JSON value and as a list of texts.
pub record Response (V : Type 0) : Type 0 where
  pub status : ℕ
  pub body : Text
  pub json : Text ⊎ V
  pub strings : Text ⊎ List Text

-- `send` returns the response or the text of an error; `show_status` is `Display` of a status, and
-- `to_uppercase` that of the standard library.
pub record Http (V : Type 0) : Type 0 where
  pub send : Method → Text → Option V → Text ⊎ Response V
  pub show_status : ℕ → Text
  pub to_uppercase : Text → Text

pub record SchemaRegistryConfig : Type 0 where
  pub url : Text
  pub auth_token : Option Text
  pub timeout_secs : ℕ

unfoldable pub default_config : SchemaRegistryConfig
default_config = record { url = text "http://localhost:8081"; auth_token = none; timeout_secs = 30 }

pub record RegisteredSchema : Type 0 where
  pub id : ℕ
  pub version : ℕ
  pub subject : Text
  pub schema_type : Text
  pub schema : Text

pub data CompatibilityLevel : Type 0 where
  no_level backward backward_transitive forward forward_transitive full full_transitive :
      CompatibilityLevel

unfoldable pub level_of : Text → Option CompatibilityLevel
level_of s =
    if same s (text "NONE")
    then some no_level
    else if same s (text "BACKWARD")
    then some backward
    else if same s (text "BACKWARD_TRANSITIVE")
    then some backward_transitive
    else if same s (text "FORWARD")
    then some forward
    else if same s (text "FORWARD_TRANSITIVE")
    then some forward_transitive
    else if same s (text "FULL")
    then some full
    else if same s (text "FULL_TRANSITIVE")
    then some full_transitive
    else none

-- `StatusCode::is_success`
abbrev pub is_success : ℕ → Bool
is_success status = leb 200 status && ltb status 300

-- `.map_err(|e| ..)?` of a request and of the reading of its body
abbrev pub requested : {A : Type 0} → Text ⊎ A → Outcome Error A
requested (inl e) = failed (other (text "schema registry request failed: " ++ e))
requested (inr a) = done a

abbrev pub parsed : {A : Type 0} → Text ⊎ A → Outcome Error A
parsed (inl e) = failed (deserialization (text "failed to parse schema registry response: " ++ e))
parsed (inr a) = done a

-- `.ok_or_else(|| Error::Deserialization("schema registry response missing '..'"))`
abbrev pub present : {A : Type 0} → Text → Option A → Outcome Error A
present what none =
    failed (deserialization (text "schema registry response missing '" ++ (what ++ text "'")))
present what (some a) = done a

abbrev pub unwrap_or : {A : Type 0} → A → Option A → A
unwrap_or d none = d
unwrap_or d (some a) = a

module _ (j : SerdeJson) (http : Http j.Value) (config : SchemaRegistryConfig) where
  open j use {Value, string, object, get, as_str, as_u64, as_bool}
  open http use {send, show_status, to_uppercase}

  -- `if !response.status().is_success() { return Err(..) }`
  unfoldable pub succeeded : Response Value → Text → Outcome Error Unit
  succeeded response suffix =
      if is_success response.status
      then done tt
      else failed
          (other (text "schema registry returned " ++ (show_status response.status ++ suffix)))

  unfoldable pub schema_body : Text → Text → Value
  schema_body schema_type schema =
      object ((text "schemaType", string schema_type) ∷ (text "schema", string schema) ∷ [])

  unfoldable pub register_subject : Text → Text → Text → Outcome Error ℕ
  register_subject subject schema_type schema = do
    let url = config.url ++ (text "/subjects/" ++ (subject ++ text "/versions"))
    response ← requested (send post_request url (some (schema_body schema_type schema)))
    u ← succeeded response (text ": " ++ response.body)
    result ← parsed response.json
    id ← present (text "id") (as_u64 (get (text "id") result))
    done (id % 2 ^ 32)

  -- The end of `get_schema_by_id` and of `get_latest_schema`
  unfoldable pub registered_of : Value → Outcome Error RegisteredSchema
  registered_of result = do
    id ← present (text "id") (as_u64 (get (text "id") result))
    version ← present (text "version") (as_u64 (get (text "version") result))
    subject ← present (text "subject") (as_str (get (text "subject") result))
    let schema_type = unwrap_or (text "AVRO") (as_str (get (text "schemaType") result))
    schema ← present (text "schema") (as_str (get (text "schema") result))
    done (record {
      id = id % 2 ^ 32;
      version = version % 2 ^ 32;
      subject = subject;
      schema_type = schema_type;
      schema = schema;
    })

  unfoldable pub get_schema_by_id : ℕ → Outcome Error RegisteredSchema
  get_schema_by_id id = do
    let url = config.url ++ (text "/schemas/ids/" ++ decimal id)
    response ← requested (send get_request url none)
    u ← succeeded response (text " for schema id " ++ decimal id)
    result ← parsed response.json
    registered_of result

  unfoldable pub get_latest_schema : Text → Outcome Error RegisteredSchema
  get_latest_schema subject = do
    let url = config.url ++ (text "/subjects/" ++ (subject ++ text "/versions/latest"))
    response ← requested (send get_request url none)
    u ← succeeded response (text " for subject " ++ subject)
    result ← parsed response.json
    registered_of result

  unfoldable pub subjects : Outcome Error (List Text)
  subjects = do
    response ← requested (send get_request (config.url ++ text "/subjects") none)
    u ← succeeded response []
    parsed response.strings

  unfoldable pub delete_subject : Text → Outcome Error Unit
  delete_subject subject = do
    let url = config.url ++ (text "/subjects/" ++ subject)
    response ← requested (send delete_request url none)
    succeeded response (text " for subject " ++ subject)

  unfoldable pub check_compatibility : Text → Text → Text → Outcome Error Bool
  check_compatibility subject schema_type schema = do
    let url =
        config.url ++ (text "/compatibility/subjects/" ++ (subject ++ text "/versions/latest"))
    response ← requested (send post_request url (some (schema_body schema_type schema)))
    u ← succeeded response []
    result ← parsed response.json
    done (unwrap_or false (as_bool (get (text "is_compatible") result)))

  -- `.as_str().and_then(..).unwrap_or(CompatibilityLevel::Backward)`
  abbrev level_or_backward : Option Text → CompatibilityLevel
  level_or_backward none = backward
  level_or_backward (some s) = unwrap_or backward (level_of (to_uppercase s))

  -- `config`
  unfoldable pub compatibility : Outcome Error CompatibilityLevel
  compatibility = do
    response ← requested (send get_request (config.url ++ text "/config") none)
    u ← succeeded response []
    result ← parsed response.json
    done (level_or_backward (as_str (get (text "compatibilityLevel") result)))
