-- ===== src/Mongodb/Snapshot.antt =====
-- crates/opencdc-connector/src/mongodb/snapshot.rs: `run`. The driver's answers are parameters: the
-- collections' names, and by a collection's name the cursor over its documents, as the list of what
-- `try_next` yields. The channel is whether `sink.is_closed()` holds before a collection and whether
-- `sink.send` fails, by the events sent before.
pub mod Done
use opencdc.Base.{
  ℕ, ◌+◌, Bool, true, false, ◌&&◌, ◌==◌, ◌⊎◌, inl, inr, none, List, [], ◌∷◌, ◌++◌, if◌then◌else◌,
  length, Text, text, starts_with, Outcome, done, failed, panicked, ◌>>=◌,
}
use opencdc.Base.Int.{ℤ}
use opencdc.Core.Error.{Error, other}
use opencdc.Core.Json.{SerdeJson}
use opencdc.Core.ConnectorType
use opencdc.Core.SourceInfo.{new as new_source}
use opencdc.Core.ChangeEvent.{ChangeEvent, snapshot_event}
use opencdc.Core.Offset.{ConnectorOffset, snapshot_done}
use opencdc.Mongodb.Config.{MongoDbConnectorConfig}
use opencdc.Mongodb.Bson.{Document, BsonText, bson_doc_to_json}

-- `filter(|n| !n.starts_with("system."))`
unfoldable pub user_collections : List Text → List Text
user_collections [] = []
user_collections (n ∷ names) =
    let rest = user_collections names in if starts_with (text "system.") n then rest else n ∷ rest

unfoldable pub collection_list : List Text → Text ⊎ List Text → Outcome Error (List Text)
collection_list (table ∷ tables) names = done (table ∷ tables)
collection_list [] (inl e) = failed (other (text "list collections: " ++ e))
collection_list [] (inr all_names) = done (user_collections all_names)

module _ (j : SerdeJson) {Other : Type 0} (t : BsonText Other) (Schema : Type 0) (now : ℤ) where
  open j use {Value}

  abbrev pub Sent : Type 0
  Sent = List (ChangeEvent Value Schema)

  -- What follows a collection, `next` being the collections that are left.
  unfoldable pub after_collection :
      (Sent → Sent × Outcome Error Unit) → Sent × Outcome Error Unit → Sent × Outcome Error Unit
  after_collection next (sent, done u) = next sent
  after_collection next (sent, failed e) = (sent, failed e)
  after_collection next (sent, panicked) = (sent, panicked)

  unfoldable pub finish : Sent × Outcome Error Unit → Sent × Outcome Error (ConnectorOffset Value)
  finish (sent, m) = (sent, (do u ← m; done snapshot_done))

  module _ (config : MongoDbConnectorConfig) (send_fails : ℕ → Bool) where
    unfoldable pub document_event : Text → Document Other → ChangeEvent Value Schema
    document_event collection_name doc =
        snapshot_event now (bson_doc_to_json j t doc)
          (new_source now ConnectorType.ConnectorType.mongodb config.database none collection_name)

    -- The `while` loop over a collection's cursor.
    unfoldable pub send_documents :
        Text → List (Text ⊎ Document Other) → Sent → Sent × Outcome Error Unit
    send_documents name [] sent = (sent, done tt)
    send_documents name (inl e ∷ cursor) sent =
        (sent, failed (other (text "find cursor " ++ (name ++ (text ": " ++ e)))))
    send_documents name (inr doc ∷ cursor) sent =
        let rest = send_documents name cursor (sent ++ (document_event name doc ∷ [])) in
        if send_fails (length sent)
        then (sent, failed (other (text "snapshot sink closed")))
        else rest

    unfoldable pub send_found :
        Text → Text ⊎ List (Text ⊎ Document Other) → Sent → Sent × Outcome Error Unit
    send_found name (inl e) sent =
        (sent, failed (other (text "find " ++ (name ++ (text ": " ++ e)))))
    send_found name (inr cursor) sent = send_documents name cursor sent

    module _ (is_closed : ℕ → Bool) where
      -- `for collection_name in &collections`
      unfoldable pub send_collections :
          ℕ
          → (Text → Text ⊎ List (Text ⊎ Document Other))
          → List Text
          → Sent
          → Sent × Outcome Error Unit
      send_collections i find [] sent = (sent, done tt)
      send_collections i find (name ∷ names) sent =
          let next = send_collections (i + 1) find names in
          if is_closed i
          then (sent, done tt)
          else after_collection next (send_found name (find name) sent)

      unfoldable pub run_collections :
          (Text → Text ⊎ List (Text ⊎ Document Other))
          → Outcome Error (List Text)
          → Sent × Outcome Error (ConnectorOffset Value)
      run_collections find (done names) = finish (send_collections 0 find names [])
      run_collections find (failed e) = ([], failed e)
      run_collections find panicked = ([], panicked)

      unfoldable pub run :
          Text ⊎ Unit {0}
          → Text ⊎ List Text
          → (Text → Text ⊎ List (Text ⊎ Document Other))
          → List Text
          → Sent × Outcome Error (ConnectorOffset Value)
      run (inl e) names find tables = ([], failed (other (text "mongodb connect: " ++ e)))
      run (inr u) names find tables = run_collections find (collection_list tables names)
