-- ===== src/Mongodb/Bson/Fields.antt =====
-- What is found in the JSON value of a document.
use opencdc.Base.{
  ◌≡◌, refl, ◌∙◌, ap, Option, none, some, [], Text, same, Map, lookup, insert, lookup-insert,
  if◌then◌else◌,
}
use opencdc.Core.Json.{SerdeJson, Reads, or_null}
use opencdc.Mongodb.Bson.{
  Bson, Document, end_document, entry, BsonText, bson_value_to_json, insert_entries,
  bson_doc_to_json,
}

-- The last value of a key in a document, or else the given one.
unfoldable pub last_value :
    {Other A : Type 0} → (Bson Other → A) → Text → Document Other → Option A → Option A
last_value f k end_document found = found
last_value f k (entry key bv doc) found =
    last_value f k doc (if same key k then some (f bv) else found)

module _ (j : SerdeJson) {Other : Type 0} (t : BsonText Other) where
  open j use {Value}

  lookup-insert_entries :
      (k : Text) (doc : Document Other) (m : Map Value)
      → lookup k (insert_entries j t doc m) ≡ last_value (bson_value_to_json j t) k doc (lookup k m)
  unfolding insert_entries last_value
  lookup-insert_entries k end_document m = refl
  lookup-insert_entries k (entry key bv doc) m =
      lookup-insert_entries k doc (insert key (bson_value_to_json j t bv) m)
      ∙ ap (last_value (bson_value_to_json j t) k doc)
          (lookup-insert key k (bson_value_to_json j t bv) m)

  -- Under each key, the JSON value of a document has the JSON value of the last value that the document
  -- has under that key, and null where it has none.
  pub get-bson_doc_to_json :
      Reads j
      → (k : Text) (doc : Document Other)
      → j.get k (bson_doc_to_json j t doc)
        ≡ or_null j (last_value (bson_value_to_json j t) k doc none)
  unfolding bson_doc_to_json lookup
  get-bson_doc_to_json reads k doc =
      reads.get_object k (insert_entries j t doc [])
      ∙ ap (or_null j) (lookup-insert_entries k doc [])
