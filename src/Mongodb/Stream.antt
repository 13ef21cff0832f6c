-- ===== src/Mongodb/Stream.antt =====
-- crates/opencdc-connector/src/mongodb/stream.rs: from the change stream's events to change events. A
-- cursor is the list of what `try_next` yields, an error last if there is one; the events' channel is
-- whether `sink.send` fails, by the events sent before. The clock's reading is fixed during a run.
pub mod Laws
use opencdc.Base.{
  ℕ, Bool, true, false, not, ◌&&◌, ◌||◌, ◌⊎◌, inl, inr, Option, none, some, List, [], ◌∷◌, ◌++◌,
  if◌then◌else◌, length, Text, text, same, Outcome, done, failed,
}
use opencdc.Base.Int.{ℤ}
use opencdc.Core.Error.{Error, other}
use opencdc.Core.Json.{SerdeJson, or_null}
use opencdc.Core.ConnectorType
use opencdc.Core.SourceInfo.{SourceInfo, new as new_source}
use opencdc.Core.ChangeEvent.{ChangeEvent, create_event, update_event, delete_event}
use opencdc.Mongodb.Config.{MongoDbConnectorConfig}
use opencdc.Mongodb.Bson.{Document, BsonText, bson_doc_to_json}

pub record Namespace : Type 0 where
  pub db : Text
  pub coll : Option Text

-- The driver's operations; those that the source does not name are one constructor.
pub data OperationType : Type 0 where
  insert update replace delete other_operation : OperationType

pub record ChangeStreamEvent (Other : Type 0) : Type 0 where
  pub ns : Option Namespace
  pub operation_type : OperationType
  pub full_document : Option (Document Other)
  pub full_document_before_change : Option (Document Other)
  pub document_key : Option (Document Other)

abbrev pub contains : Text → List Text → Bool
contains s [] = false
contains s (t ∷ ts) = same t s || contains s ts

abbrev pub is_empty : {A : Type 0} → List A → Bool
is_empty [] = true
is_empty (x ∷ xs) = false

-- `event.ns`, and the two `continue`s of its match
unfoldable pub namespace_of : Option Namespace → Option (Text × Text)
namespace_of none = none
namespace_of (some ns) = elim ns.coll [ none ↦ none | some coll ↦ some (ns.db, coll) ]

unfoldable pub is_left_out : MongoDbConnectorConfig → Text → Bool
is_left_out config coll_name =
    not (is_empty config.collections) && not (contains coll_name config.collections)

-- The pipeline that `run` gives to the driver: an empty one where no collections are listed.
unfoldable pub pipeline_of :
    {Other : Type 0} → MongoDbConnectorConfig → Option (List (Document Other))
pipeline_of config = if is_empty config.collections then some [] else none

module _ (j : SerdeJson) {Other : Type 0} (t : BsonText Other) where
  open j use {Value}

  abbrev pub json_of : Option (Document Other) → Option Value
  json_of none = none
  json_of (some doc) = some (bson_doc_to_json j t doc)

  -- `unwrap_or_else` of the document before the change: the key, or null.
  unfoldable pub before_delete : Option (Document Other) → Option (Document Other) → Value
  before_delete (some doc) key = bson_doc_to_json j t doc
  before_delete none key = or_null j (json_of key)

  module _ (Schema : Type 0) (now : ℤ) where
    -- The match over the operation: the event that is sent, if one is.
    unfoldable pub operation_event :
        OperationType
        → ChangeStreamEvent Other
        → SourceInfo Value
        → Option (ChangeEvent Value Schema)
    operation_event insert event source = elim event.full_document [
      | none ↦ none
      | some doc ↦ some (create_event now (bson_doc_to_json j t doc) source)
    ]
    operation_event update event source = some (
        update_event now (json_of event.full_document_before_change)
          (or_null j (json_of event.full_document)) source)
    operation_event replace event source = some (
        update_event now (json_of event.full_document_before_change)
          (or_null j (json_of event.full_document)) source)
    operation_event delete event source = some (
        delete_event now (before_delete event.full_document_before_change event.document_key)
          source)
    operation_event other_operation event source = none

    -- The body of the loop, up to the channel.
    unfoldable pub translate :
        MongoDbConnectorConfig → ChangeStreamEvent Other → Option (ChangeEvent Value Schema)
    translate config event = elim (namespace_of event.ns) [
      | none ↦ none
      | some names ↦
          if is_left_out config (names.1)
          then none
          else operation_event event.operation_type event
              (new_source now ConnectorType.ConnectorType.mongodb (names.0) none (names.1))
    ]

    abbrev Sent : Type 0
    Sent = List (ChangeEvent Value Schema)

    -- The `while` loop; a failed send is its `break`.
    unfoldable pub stream_events :
        (ℕ → Bool)
        → MongoDbConnectorConfig
        → List (Text ⊎ ChangeStreamEvent Other)
        → Sent
        → Sent × Outcome Error Unit
    stream_events send_fails config [] sent = (sent, done tt)
    stream_events send_fails config (inl e ∷ cursor) sent =
        (sent, failed (other (text "change stream event: " ++ e)))
    stream_events send_fails config (inr event ∷ cursor) sent = elim (translate config event) [
      | none ↦ stream_events send_fails config cursor sent
      | some change ↦
          let rest = stream_events send_fails config cursor (sent ++ (change ∷ [])) in
          if send_fails (length sent) then (sent, done tt) else rest
    ]

    -- `connect` is what `Client::with_uri_str` comes to, and `watch` the change stream that is opened with
    -- a pipeline and a token to resume after.
    unfoldable pub run :
        {Token : Type 0}
        → (ℕ → Bool)
        → Text ⊎ Unit {0}
        → (Option (List (Document Other))
            → Option Token
            → Text ⊎ List (Text ⊎ ChangeStreamEvent Other))
        → MongoDbConnectorConfig
        → Option Token
        → Sent × Outcome Error Unit
    run send_fails (inl e) watch config resume_token =
        ([], failed (other (text "mongodb connect: " ++ e)))
    run send_fails (inr u) watch config resume_token =
        elim (watch (pipeline_of config) resume_token) [
          | inl e ↦ ([], failed (other (text "change stream: " ++ e)))
          | inr cursor ↦ stream_events send_fails config cursor []
        ]
