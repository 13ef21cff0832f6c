-- ===== src/Examples/Mongodb.antt =====
-- A driver's documents, a change stream and a snapshot.
use opencdc.Base.{
  ◌≡◌, refl, false, ◌⊎◌, inr, Option, none, some, List, [], ◌∷◌, ltb, leb, take, if◌then◌else◌,
  length, starts_with, Text, text, done,
}
use opencdc.Base.Int.{pos}
use opencdc.Core.Json.{or_null}
use opencdc.Examples.Tree.{tree, tree_reads}
use opencdc.Mongodb.Config.{MongoDbConnectorConfig, new}
use opencdc.Mongodb.Bson.{
  Document, entry, end_document, int32, BsonText, bson_doc_to_json, bson_value_to_json,
}
use opencdc.Mongodb.Bson.Fields.{last_value, get-bson_doc_to_json}
use opencdc.Mongodb.Stream.{ChangeStreamEvent, insert, delete, run as run_stream}
use opencdc.Mongodb.Stream.Laws.{translations, cursor_of, ending, run-translations}
use opencdc.Mongodb.Snapshot.{user_collections, run as run_snapshotter}
use opencdc.Mongodb.Snapshot.Done.{run_closed}

abbrev texts : BsonText Unit
texts = record {
  show_date_time = λ dt. [];
  to_hex = λ oid. oid;
  encode = λ bytes. bytes;
  debug = λ v. [];
}

abbrev alice : Document Unit
alice = entry (text "age") (int32 (pos 30)) end_document

get-bson_doc_to_json_example :
    tree.get (text "age") (bson_doc_to_json tree texts alice)
    ≡ or_null tree (last_value (bson_value_to_json tree texts) (text "age") alice none)
get-bson_doc_to_json_example = get-bson_doc_to_json tree texts tree_reads (text "age") alice

abbrev config : MongoDbConnectorConfig
unfolding new
config = new (text "mongodb://localhost:27017") (text "shop")

abbrev inserted : ChangeStreamEvent Unit
inserted = record {
  ns = some (record { db = text "shop"; coll = some (text "users") });
  operation_type = insert;
  full_document = some alice;
  full_document_before_change = none;
  document_key = none;
}

abbrev deleted : ChangeStreamEvent Unit
deleted = record inserted {
  operation_type = delete;
  full_document = none;
  document_key = some alice;
}

abbrev events : List (ChangeStreamEvent Unit)
events = inserted ∷ deleted ∷ []

abbrev watch :
    Option (List (Document Unit)) → Option Text → Text ⊎ List (Text ⊎ ChangeStreamEvent Unit)
watch pipeline token = inr (cursor_of tree texts Unit (pos 0) events (some (text "reset")))

run-translations_example : run_stream tree texts Unit (pos 0) (leb 1) (inr tt) watch config none ≡ (
  take 1 (translations tree texts Unit (pos 0) config events),
  if ltb 1 (length (translations tree texts Unit (pos 0) config events))
      then done tt
      else ending tree texts Unit (pos 0) (some (text "reset")),
)
run-translations_example =
    run-translations tree texts Unit (pos 0) config 1 (some (text "reset")) watch none events refl

abbrev find : Text → Text ⊎ List (Text ⊎ Document Unit)
find name = inr (inr alice ∷ [])

abbrev stored : List Text
stored = text "system.views" ∷ text "users" ∷ text "orders" ∷ []

run_closed_example :
    run_snapshotter tree texts Unit
      (pos 0)
      config
      (λ i. false)
      (leb 1)
      (inr tt)
      (inr stored)
      find
      []
    ≡ run_snapshotter tree texts Unit
        (pos 0)
        config
        (λ i. false)
        (λ i. false)
        (inr tt)
        (inr stored)
        find
        (text "users" ∷ [])
unfolding user_collections starts_with
run_closed_example =
    run_closed tree texts Unit (pos 0) config (λ i. false) 1 find (text "users") [] stored first
  where
    first : take 1 (user_collections stored) ≡ text "users" ∷ []
    first = refl
