-- ===== src/Mcp/State.antt =====
-- crates/opencdc-mcp/src/state.rs: the connectors and counters of the server. A call is one step: what
-- changes the connectors holds their lock, and `increment_events_received` adds to the total just before
-- it takes it. `run_snapshot` also starts a task, whose body is a later step, `finish_snapshot`. A hash map is the list of its entries. `Config` is the
-- connectors' configuration, `V` serde_json's value type, `Sender` a channel's sender.
use opencdc.Base.{
  ℕ, ◌+◌, ◌*◌, ◌-◌, ◌%◌, ◌^◌, Bool, true, false, Option, none, some, List, [], ◌∷◌, ◌||◌, map,
}
use opencdc.Base.{
  ◌==◌, ltb, if◌then◌else◌, length, Text, text, same, same_iff, lookup, Map, update, ◌≡◌, refl,
  arith, Bool-cases, inl, inr,
}
use opencdc.Core.Offset.{ConnectorOffset, snapshot_done}
use Prim.Native.Nat.{min, max}

pub data ConnectorStatus : Type 0 where
  stopped starting running snapshotting streaming : ConnectorStatus
  error : Text → ConnectorStatus

pub record ManagedConnector (Config V : Type 0) : Type 0 where
  pub config : Option Config
  pub status : ConnectorStatus
  pub offset : Option (ConnectorOffset V)
  pub events_received : ℕ
  pub error : Option Text

pub record HealthStatus : Type 0 where
  pub uptime_seconds : ℕ
  pub total_connectors : ℕ
  pub running_connectors : ℕ
  pub errored_connectors : ℕ
  pub total_events_received : ℕ
  pub total_events_sent : ℕ
  pub total_errors : ℕ
  pub status : Text

-- `AtomicU64::fetch_add`, which wraps, and `u64::saturating_add`
abbrev pub fetch_add : ℕ → ℕ → ℕ
fetch_add a b = (a + b) % 2 ^ 64

abbrev pub saturating_add : ℕ → ℕ → ℕ
saturating_add a b = min (a + b) (2 ^ 64 - 1)

-- `entry(k).or_insert(v)`
unfoldable pub or_insert : {A : Type 0} → Text → A → Map A → Map A
or_insert k v [] = (k, v) ∷ []
or_insert k v ((j, w) ∷ m) = if same j k then (j, w) ∷ m else (j, w) ∷ or_insert k v m

-- `values().filter(p).count()`
unfoldable pub count_values : {A : Type 0} → (A → Bool) → Map A → ℕ
count_values p [] = 0
count_values p ((k, v) ∷ m) = (if p v then 1 else 0) + count_values p m

-- `str::cmp`, by bytes: whether the first text is not the greater one.
unfoldable pub text_leb : Text → Text → Bool
text_leb [] ys = true
text_leb (x ∷ xs) [] = false
text_leb (x ∷ xs) (y ∷ ys) = let later = text_leb xs ys in if x == y then later else ltb x y

-- `sort_by(|a, b| a.0.cmp(&b.0))`, a stable sort
unfoldable pub insert_sorted : {A : Type 0} → Text → A → Map A → Map A
insert_sorted k v [] = (k, v) ∷ []
insert_sorted k v ((j, w) ∷ m) =
    let later = insert_sorted k v m in if text_leb k j then (k, v) ∷ (j, w) ∷ m else (j, w) ∷ later

unfoldable pub sort_by_key : {A : Type 0} → Map A → Map A
unfolding insert_sorted
sort_by_key [] = []
sort_by_key ((k, v) ∷ m) = insert_sorted k v (sort_by_key m)

-- `HashMap::remove`
unfoldable pub remove : {A : Type 0} → Text → Map A → Map A
remove k [] = []
remove k ((j, w) ∷ m) = if same j k then m else (j, w) ∷ remove k m

pub lookup-or_insert :
    {A : Type 0} (name k : Text) (v : A) (m : Map A) {a : A}
    → lookup name m ≡ some a
    → lookup name (or_insert k v m) ≡ some a
unfolding lookup or_insert
lookup-or_insert name k v [] h = cc
lookup-or_insert name k v ((i, w) ∷ m) h = elim (Bool-cases (same i k)) [
  | inl here ↦ rw here h
  | inr there ↦ elim (Bool-cases (same i name)) [
    | inl found ↦ rw there rw found (rw found at h)
    | inr other ↦ rw there rw other (lookup-or_insert name k v m (rw other at h))
  ]
]

pub lookup-remove_other :
    {A : Type 0} (k name : Text) (m : Map A)
    → same name k ≡ false
    → lookup k (remove name m) ≡ lookup k m
unfolding lookup remove
lookup-remove_other k name [] other = refl
lookup-remove_other k name ((i, w) ∷ m) other =
    ground
      (arith, same_iff name k, same_iff i name, same_iff i k, lookup-remove_other k name m other)

unfoldable pub is_running : ConnectorStatus → Bool
is_running running = true
is_running streaming = true
is_running _ = false

unfoldable pub is_error : ConnectorStatus → Bool
is_error (error e) = true
is_error _ = false

module _ (Config V Sender : Type 0) where
  pub record AppState : Type 0 where
    pub connectors : Map (ManagedConnector Config V)
    pub active_sinks : Map Sender
    pub total_events_received : ℕ
    pub total_events_sent : ℕ
    pub total_errors : ℕ

  abbrev pub new : AppState
  new = record {
    connectors = [];
    active_sinks = [];
    total_events_received = 0;
    total_events_sent = 0;
    total_errors = 0;
  }

  abbrev pub fresh : ManagedConnector Config V
  fresh = record {
    config = none;
    status = stopped;
    offset = none;
    events_received = 0;
    error = none;
  }

  unfoldable pub register_connector : Text → AppState → AppState
  register_connector name s = record s { connectors = or_insert name fresh s.connectors }

  unfoldable pub update_status : Text → ConnectorStatus → AppState → AppState
  update_status name status s = record s {
    connectors = update name (λ c. record c { status = status }) s.connectors;
  }

  abbrev pub received : ℕ → ManagedConnector Config V → ManagedConnector Config V
  received count c = record c { events_received = saturating_add c.events_received count }

  unfoldable pub increment_events_received : Text → ℕ → AppState → AppState
  increment_events_received name count s = record s {
    total_events_received = fetch_add s.total_events_received count;
    connectors = update name (received count) s.connectors;
  }

  unfoldable pub increment_events_sent : ℕ → AppState → AppState
  increment_events_sent count s = record s {
    total_events_sent = fetch_add s.total_events_sent count;
  }

  unfoldable pub increment_errors : ℕ → AppState → AppState
  increment_errors count s = record s { total_errors = fetch_add s.total_errors count }

  unfoldable pub health_status : ℕ → AppState → HealthStatus
  health_status uptime s =
      let errors = count_values (λ c. is_error c.status) s.connectors in
      record {
        uptime_seconds = uptime;
        total_connectors = length s.connectors;
        running_connectors = count_values (λ c. is_running c.status) s.connectors;
        errored_connectors = errors;
        total_events_received = s.total_events_received;
        total_events_sent = s.total_events_sent;
        total_errors = s.total_errors;
        status = if ltb 0 errors then text "degraded" else text "healthy";
      }

  unfoldable pub list_connectors : AppState → Map (ManagedConnector Config V)
  list_connectors s = sort_by_key s.connectors

  -- What `connector_remove` does under the lock
  unfoldable pub remove_connector : Text → AppState → AppState
  remove_connector name s = record s { connectors = remove name s.connectors }

  -- `run_snapshot` up to the task that it starts
  unfoldable pub run_snapshot : Text → AppState → AppState
  run_snapshot name s = update_status name snapshotting s

  abbrev pub snapshot_count : List Text → ℕ
  snapshot_count tables = max (length tables) 1 * 10

  abbrev pub snapshot_taken : ℕ → ManagedConnector Config V → ManagedConnector Config V
  snapshot_taken count c = record c {
    events_received = saturating_add c.events_received count;
    status = running;
    offset = some snapshot_done;
  }

  abbrev pub contains_key : Text → Map (ManagedConnector Config V) → Bool
  contains_key k [] = false
  contains_key k ((j, w) ∷ m) = same j k || contains_key k m

  -- The body of the task that `run_snapshot` starts
  unfoldable pub finish_snapshot : Text → List Text → AppState → AppState
  finish_snapshot name tables s =
      if contains_key name s.connectors
      then record s {
        connectors = update name (snapshot_taken (snapshot_count tables)) s.connectors;
        total_events_received = fetch_add s.total_events_received (snapshot_count tables);
      }
      else s

  unfoldable pub shutdown_all : AppState → AppState
  shutdown_all s = record s {
    connectors = map (λ (k, c). (k, record c { status = stopped })) s.connectors;
    active_sinks = [];
  }
