-- ===== src/Mongodb/Bson.antt =====
-- crates/opencdc-connector/src/mongodb/snapshot.rs: `bson_doc_to_json` and `bson_value_to_json`. Of the
-- driver's values the ones that the source matches are named; the others are `other_value`. How the
-- driver and the hex crate write some of them as text is a parameter.
pub mod Fields
use opencdc.Base.{Bool, List, [], ◌∷◌, Bytes, Text, Map, insert}
use opencdc.Base.Int.{ℤ}
use opencdc.Core.Json.{SerdeJson}

mutual
  pub data Bson (Other : Type 0) : Type 0 where
    -- the eight bytes of the number
    double : Bytes → Bson Other
    string : Text → Bson Other
    array : BsonArray Other → Bson Other
    document : Document Other → Bson Other
    boolean : Bool → Bson Other
    null_value : Bson Other
    int32 int64 date_time : ℤ → Bson Other
    object_id binary : Bytes → Bson Other
    other_value : Other → Bson Other

  pub data BsonArray (Other : Type 0) : Type 0 where
    end_array : BsonArray Other
    item : Bson Other → BsonArray Other → BsonArray Other

  -- The entries in the order in which the driver iterates over them.
  pub data Document (Other : Type 0) : Type 0 where
    end_document : Document Other
    entry : Text → Bson Other → Document Other → Document Other

pub record BsonText (Other : Type 0) : Type 0 where
  -- `DateTime::to_string`, `ObjectId::to_hex`, `hex::encode`, and `{:?}` of the other values
  pub show_date_time : ℤ → Text
  pub to_hex : Bytes → Text
  pub encode : Bytes → Text
  pub debug : Other → Text

module _ (j : SerdeJson) {Other : Type 0} (t : BsonText Other) where
  open j use {Value}

  unfoldable mutual
    pub bson_value_to_json : Bson Other → Value
    bson_value_to_json (double v) = j.f64_of v
    bson_value_to_json (string v) = j.string v
    bson_value_to_json (array vs) = j.array (items_to_json vs)
    bson_value_to_json (document doc) = j.object (insert_entries doc [])
    bson_value_to_json (boolean v) = j.bool v
    bson_value_to_json null_value = j.null
    bson_value_to_json (int32 v) = j.integer v
    bson_value_to_json (int64 v) = j.integer v
    bson_value_to_json (date_time dt) = j.string (t.show_date_time dt)
    bson_value_to_json (object_id oid) = j.string (t.to_hex oid)
    bson_value_to_json (binary bytes) = j.string (t.encode bytes)
    bson_value_to_json (other_value v) = j.string (t.debug v)

    pub items_to_json : BsonArray Other → List Value
    items_to_json end_array = []
    items_to_json (item v vs) = bson_value_to_json v ∷ items_to_json vs

    -- The loop over the entries, into the map so far.
    pub insert_entries : Document Other → Map Value → Map Value
    insert_entries end_document m = m
    insert_entries (entry key bv doc) m = insert_entries doc (insert key (bson_value_to_json bv) m)

  unfoldable pub bson_doc_to_json : Document Other → Value
  bson_doc_to_json doc = j.object (insert_entries doc [])
