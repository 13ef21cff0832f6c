-- ===== src/Examples/Tree.antt =====
-- A value type whose readers look inside, and a schema registry that answers.
use opencdc.Base.{
  ℕ, ◌≡◌, ◌↔◌, starts_with, refl, Bool, true, false, ◌⊎◌, inl, inr, Option, none, some, List, [],
  ◌∷◌, if◌then◌else◌, Text, text, Map, lookup, same, done, failed, arith, Bool-cases, same_refl,
}
use opencdc.Base.Int.{ℤ, pos}
use opencdc.Core.Error.{deserialization}
use opencdc.Core.Json.{SerdeJson, Reads, or_null}
use opencdc.Schema.Client.{
  Http, Response, RegisteredSchema, get_schema_by_id, get_latest_schema, default_config,
}
use opencdc.Schema.Client.Answers.{registered_json, id_json, get_schema-json}
use opencdc.Mcp.State.{
  AppState, new, fresh, snapshotting, running, register_connector, finish_snapshot,
}
use opencdc.Core.Offset.{snapshot_done}
use opencdc.Mcp.Service.{
  McpError, SnapshotStartArgs, snapshot_start, snapshot_started, invalid_state, may_snapshot,
}
use opencdc.Mcp.Endpoint.{asks_for, answer}
use opencdc.Mcp.Endpoint.Codes.{Sound, answer_healthy_iff}
use opencdc.Mcp.Service.Snapshots.{snapshot_start_again, snapshot_start_twice}
use opencdc.Mcp.Meanwhile.{none_yet, registers}

mutual
  pub data Tree : Type 0 where
    leaf : Tree
    truth : Bool → Tree
    words : Text → Tree
    number : ℤ → Tree
    branch : Entries → Tree

  pub data Entries : Type 0 where
    end_entries : Entries
    entry : Text → Tree → Entries → Entries

abbrev collect : Map Tree → Entries
collect [] = end_entries
collect ((k, v) ∷ m) = entry k v (collect m)

abbrev items : ℕ → List Tree → Entries
items n [] = end_entries
items n (v ∷ vs) = entry [] v (items n vs)

abbrev find : Text → Entries → Tree
find k end_entries = leaf
find k (entry j v es) = if same j k then v else find k es

abbrev get_tree : Text → Tree → Tree
get_tree k (branch es) = find k es
get_tree k _ = leaf

abbrev words_of : Tree → Option Text
words_of (words s) = some s
words_of _ = none

abbrev number_of : Tree → Option ℕ
number_of (number (pos n)) = some n
number_of _ = none

abbrev truth_of : Tree → Option Bool
truth_of (truth b) = some b
truth_of _ = none

abbrev pub tree : SerdeJson
tree = record {
  Value = Tree;
  null = leaf;
  bool = truth;
  string = words;
  integer = number;
  object = λ m. branch (collect m);
  array = λ vs. branch (items 0 vs);
  from_str = λ s. some (words s);
  parse_f32 = λ s. none;
  parse_f64 = λ s. none;
  from_str_f64 = λ s. none;
  f32_of = λ b. leaf;
  f64_of = λ b. leaf;
  as_str = words_of;
  as_array = λ v. none;
  as_u64 = number_of;
  as_bool = truth_of;
  get = get_tree;
  to_string = λ v. [];
  to_string_pretty = λ v. [];
}

find-collect : (k : Text) (m : Map Tree) → find k (collect m) ≡ or_null tree (lookup k m)
unfolding lookup
find-collect k [] = refl
find-collect k ((j, v) ∷ m) = elim (Bool-cases (same j k)) [
  | inl e ↦ rw (e, lookup) refl
  | inr e ↦ rw (e, lookup) (find-collect k m)
]

pub tree_reads : Reads tree
tree_reads = record {
  get_object = find-collect;
  as_str_string = λ s. refl;
  as_str_null = refl;
  as_u64_null = refl;
  as_u64_integer = λ n. refl;
}

abbrev users : RegisteredSchema
users = record {
  id = 7;
  version = 2;
  subject = text "users-value";
  schema_type = text "AVRO";
  schema = text "{}";
}

abbrev answered : Response Tree
answered = record {
  status = 200;
  body = [];
  json = inr (registered_json tree false users);
  strings = inl (text "not a list");
}

abbrev answered_by_id : Response Tree
answered_by_id = record answered { json = inr (id_json tree false users) }

-- It tells a request by id from one for a subject by the path.
abbrev http : Http Tree
http = record {
  send = λ method url body. elim (starts_with (text "http://localhost:8081/schemas") url) [
    | true ↦ inr answered_by_id
    | false ↦ inr answered
  ];
  show_status = λ status. [];
  to_uppercase = λ s. s;
}

get_schema-json_example :
    (get_latest_schema tree http default_config (text "users-value") ≡ done users)
    × (get_schema_by_id tree http default_config 7
        ≡ failed (deserialization (text "schema registry response missing 'id'")))
unfolding starts_with default_config
get_schema-json_example =
    get_schema-json tree tree_reads http default_config false users answered_by_id answered
      (omega arith) (omega arith) (λ e. refl) refl refl refl refl refl refl

abbrev Server : Type 0
Server = AppState Unit Tree Unit

abbrev server : Server
server = record (new Unit Tree Unit) { connectors = (text "pg", fresh Unit Tree Unit) ∷ [] }

abbrev asked : Option (List Text) → SnapshotStartArgs
asked tables = record { connector = text "pg"; tables = tables }

abbrev alone : Server → Server
alone s = s

abbrev ask : Option (List Text) → (Server → Server) → Server → (McpError Tree ⊎ Text) × Server
ask tables between s = snapshot_start tree (λ s. s) Unit Unit true (asked tables) between s

known : lookup (text "pg") server.connectors ≡ some (fresh Unit Tree Unit)
unfolding lookup
known = rw (same_refl (text "pg")) refl

-- While the snapshot of "pg" is taken, a connector "my" is registered.
abbrev joined : Server
joined = register_connector Unit Tree Unit (text "my") (ask none alone server).1

snapshot_start_again_example :
    ((ask none alone server).0 ≡ snapshot_started tree (λ s. s) Unit Unit (text "pg"))
    × (ask none alone joined
        ≡ (invalid_state tree (λ s. s) Unit Unit (text "pg") snapshotting, joined))
    × ((ask none alone (finish_snapshot Unit Tree Unit (text "pg") [] joined)).0
        ≡ snapshot_started tree (λ s. s) Unit Unit (text "pg"))
unfolding may_snapshot
snapshot_start_again_example =
    snapshot_start_again tree (λ s. s) Unit Unit (text "pg") none none alone server joined
      (fresh Unit Tree Unit) known refl (registers (text "my") none_yet)

snapshot_start_twice_example :
    let first = ask none (λ u. (ask none alone u).1) server in
    let ended =
      finish_snapshot Unit Tree Unit
        (text "pg")
        []
        (finish_snapshot Unit Tree Unit (text "pg") [] first.1) in
    (first.0 ≡ snapshot_started tree (λ s. s) Unit Unit (text "pg"))
    × ((ask none alone server).0 ≡ snapshot_started tree (λ s. s) Unit Unit (text "pg"))
    × (lookup (text "pg") ended.connectors
        ≡ some (record (fresh Unit Tree Unit) {
          status = running;
          events_received = 20;
          offset = some snapshot_done;
        }))
unfolding may_snapshot
snapshot_start_twice_example =
    snapshot_start_twice tree (λ s. s) Unit Unit (text "pg") none none server (fresh Unit Tree Unit)
      known refl

abbrev health_request : Text
health_request = text "GET /health HTTP/1.1\r\n"

answer_healthy_iff_example :
    ((answer tree (λ h. []) Unit Tree Unit 5 server health_request).status_code ≡ 200)
    ↔ Sound tree (λ h. []) Unit Tree Unit server.connectors
unfolding asks_for starts_with
answer_healthy_iff_example =
    answer_healthy_iff tree (λ h. []) Unit Tree Unit 5 server health_request refl
