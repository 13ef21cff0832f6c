-- ===== src/Mcp/Service.antt =====
-- crates/opencdc-mcp/src/service.rs: the tools of the server, each as one step on the state, and `snapshot_start` as two. `permit` is
-- whether `acquire_tool_permit` returns one; a status is shown through `Debug`, of which that of a
-- string is a parameter; a result's content is the text of its JSON.
pub mod Snapshots
use opencdc.Base.{
  ℕ, Bool, true, false, ◌⊎◌, inl, inr, Option, none, some, List, [], ◌∷◌, ◌++◌, map, if◌then◌else◌,
  Text, text, Map, lookup, Outcome, done, failed, panicked,
}
use opencdc.Base.Int.{pos}
use opencdc.Core.Error.{Error, display}
use opencdc.Core.Json.{SerdeJson, or_null}
use opencdc.Schema.Client.{Http, SchemaRegistryConfig, RegisteredSchema, subjects, get_schema_by_id}
use opencdc.Mcp.State.{
  ConnectorStatus, stopped, starting, running, snapshotting, streaming, error, ManagedConnector,
  AppState, register_connector, list_connectors, remove_connector, run_snapshot,
}

-- `McpError::internal_error` and `McpError::invalid_params`
pub data McpError (V : Type 0) : Type 0 where
  internal_error invalid_params : Text → V → McpError V

pub record SnapshotStartArgs : Type 0 where
  pub connector : Text
  pub tables : Option (List Text)

-- Whether `snapshot_start` goes on.
unfoldable pub may_snapshot : ConnectorStatus → Bool
may_snapshot running = true
may_snapshot stopped = true
may_snapshot _ = false

abbrev pub unwrap_or_default : Option (List Text) → List Text
unwrap_or_default none = []
unwrap_or_default (some tables) = tables

module _ (j : SerdeJson) (debug : Text → Text) (Config Sender : Type 0) where
  open j use {Value, null, string, integer, object, array, to_string, to_string_pretty}

  abbrev State : Type 0
  State = AppState Config Value Sender

  abbrev pub ToolResult : Type 0
  ToolResult = McpError Value ⊎ Text

  unfoldable pub debug_status : ConnectorStatus → Text
  debug_status stopped = text "Stopped"
  debug_status starting = text "Starting"
  debug_status running = text "Running"
  debug_status snapshotting = text "Snapshotting"
  debug_status streaming = text "Streaming"
  debug_status (error e) = text "Error(" ++ (debug e ++ text ")")

  unfoldable pub connector_info_json : Text → ManagedConnector Config Value → Value
  connector_info_json name mc = object (
      (text "name", string name)
      ∷ (text "status", string (debug_status mc.status))
      ∷ (text "events_received", integer (pos mc.events_received))
      ∷ (text "error", elim mc.error [ none ↦ null | some e ↦ string e ])
      ∷ [])

  abbrev pub rate_limited : ToolResult
  rate_limited = inl (
      internal_error (text "rate_limited")
        (object ((text "detail", string (text "server is shutting down")) ∷ [])))

  abbrev pub not_found : Text → ToolResult
  not_found name =
      inl (
        invalid_params (text "connector_not_found") (object ((text "connector", string name) ∷ [])))

  unfoldable pub connector_list : Bool → State → ToolResult × State
  connector_list false s = (rate_limited, s)
  connector_list true s = (
    inr (
        to_string_pretty (
          array (
            map (λ (name, mc). connector_info_json name mc)
              (list_connectors Config Value Sender s)))),
    s,
  )

  unfoldable pub connector_register : Bool → Text → State → ToolResult × State
  connector_register false name s = (rate_limited, s)
  connector_register true name s =
      let registered = register_connector Config Value Sender name s in
      let names = map (λ (k, mc). string k) (list_connectors Config Value Sender registered) in
      (
        inr (
            to_string_pretty (
              object
                ((text "registered", string name) ∷ (text "all_connectors", array names) ∷ []))),
        registered,
      )

  unfoldable pub connector_remove : Bool → Text → State → ToolResult × State
  connector_remove false name s = (rate_limited, s)
  connector_remove true name s = (
    inr (to_string (object ((text "removed", string name) ∷ []))),
    remove_connector Config Value Sender name s,
  )

  connector_info : Text → Option (ManagedConnector Config Value) → ToolResult
  connector_info name none = not_found name
  connector_info name (some mc) = inr (to_string_pretty (connector_info_json name mc))

  unfoldable pub connector_status : Bool → Text → State → ToolResult × State
  unfolding connector_info
  connector_status false name s = (rate_limited, s)
  connector_status true name s = (connector_info name (lookup name s.connectors), s)

  abbrev pub invalid_state : Text → ConnectorStatus → ToolResult
  invalid_state name status = inl (
      invalid_params (text "invalid_state") (
        object (
          (text "connector", string name)
          ∷ (text "status", string (debug_status status))
          ∷ (text "expected", string (text "Running or Stopped"))
          ∷ [])))

  abbrev pub snapshot_started : Text → ToolResult
  snapshot_started name = inr (
      to_string (
        object (
          (text "connector", string name)
          ∷ (text "action", string (text "snapshot_started"))
          ∷ (
            text "note",
            string (
                text
                  "Snapshot running in background task. Use connector_status to monitor progress."),
          )
          ∷ [])))

  -- `match status`; the tables are those of the task, `finish_snapshot`.
  unfoldable pub start_if_allowed :
      Text → Option (ManagedConnector Config Value) → State → ToolResult × State
  start_if_allowed name none s = (not_found name, s)
  start_if_allowed name (some c) s =
      if may_snapshot c.status
      then (snapshot_started name, run_snapshot Config Value Sender name s)
      else (invalid_state name c.status, s)

  -- The status is read under a lock that is released again: `between` is what the other calls make of
  -- the state before `run_snapshot` takes its lock.
  unfoldable pub snapshot_start :
      Bool → SnapshotStartArgs → (State → State) → State → ToolResult × State
  unfolding start_if_allowed
  snapshot_start false args between s = (rate_limited, between s)
  snapshot_start true args between s =
      start_if_allowed args.connector (lookup args.connector s.connectors) (between s)

  abbrev registry_error : Error → ToolResult
  registry_error e = inl (
      internal_error (text "schema_registry_error")
        (object ((text "detail", string (display e)) ∷ [])))

  abbrev not_configured : ToolResult
  not_configured = inl (
      invalid_params (text "schema_registry_not_configured")
        (object ((text "hint", string (text "Set OPENCDC_SCHEMA_REGISTRY_URL env var")) ∷ [])))

  -- A panic of the client would be one of the tool; the client has none.
  abbrev tool_outcome : {A : Type 0} → (A → Value) → Outcome Error A → Outcome Error ToolResult
  tool_outcome f (done a) = done (inr (to_string_pretty (f a)))
  tool_outcome f (failed e) = done (registry_error e)
  tool_outcome f panicked = panicked

  -- The client is none where it is not configured.
  unfoldable pub schema_registry_subjects :
      Bool → Option (Http Value × SchemaRegistryConfig) → Outcome Error ToolResult
  schema_registry_subjects false client = done rate_limited
  schema_registry_subjects true none = done not_configured
  schema_registry_subjects true (some (http, config)) =
      tool_outcome (λ names. object ((text "subjects", array (map string names)) ∷ []))
        (subjects j http config)

  abbrev registered_value : RegisteredSchema → Value
  registered_value r = object (
      (text "id", integer (pos r.id))
      ∷ (text "schema", string r.schema)
      ∷ (text "schemaType", string r.schema_type)
      ∷ (text "subject", string r.subject)
      ∷ (text "version", integer (pos r.version))
      ∷ [])

  unfoldable pub schema_registry_get :
      Bool → ℕ → Option (Http Value × SchemaRegistryConfig) → Outcome Error ToolResult
  schema_registry_get false id client = done rate_limited
  schema_registry_get true id none = done not_configured
  schema_registry_get true id (some (http, config)) =
      tool_outcome registered_value (get_schema_by_id j http config id)
