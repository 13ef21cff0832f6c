-- ===== src/Core/SourceInfo.antt =====
-- crates/opencdc-core/src/source_info.rs: the source block of an event. `V` is serde_json's value
-- type, and `now` the reading of the clock that the constructors take.
use opencdc.Base.{
  ◌≡◌, refl, ◌↔◌, Bool, true, false, Option, none, some, [], Text, text, same, same_iff, Map,
  insert,
}
use opencdc.Base.{if◌then◌else◌, arith}
use opencdc.Base.Int.{ℤ}
use opencdc.Core.ConnectorType.{ConnectorType, as_str as connector_str, debezium_version}

pub data SnapshotPhase : Type 0 where
  yes_phase no_phase last incremental : SnapshotPhase

unfoldable pub is_snapshot : SnapshotPhase → Bool
is_snapshot no_phase = false
is_snapshot _ = true

unfoldable pub phase_str : SnapshotPhase → Text
phase_str yes_phase = text "true"
phase_str no_phase = text "false"
phase_str last = text "last"
phase_str incremental = text "incremental"

unfoldable pub phase_from_str : Text → Option SnapshotPhase
phase_from_str s =
    if same s (text "true")
    then some yes_phase
    else if same s (text "false")
    then some no_phase
    else if same s (text "last")
    then some last
    else if same s (text "incremental")
    then some incremental
    else none

pub record SourceInfo (V : Type 0) : Type 0 where
  pub version : Text
  pub connector : Text
  pub name : Text
  pub ts_ms : Option ℤ
  pub snapshot : SnapshotPhase
  pub db : Text
  pub schema : Option Text
  pub table : Text
  pub tx_id : Option ℤ
  pub lsn : Option ℤ
  pub xmin : Option ℤ
  pub file : Option Text
  pub pos : Option ℤ
  pub gtid : Option Text
  pub sequence : Option Text
  pub rs_id : Option ℤ
  pub resume_token : Option Text
  pub extra : Option (Map V)

-- `SourceInfo::new`
unfoldable pub new : {V : Type 0} → ℤ → ConnectorType → Text → Option Text → Text → SourceInfo V
new now connector_type db schema table = record {
  version = debezium_version;
  connector = connector_str connector_type;
  name = text "opencdc";
  ts_ms = some now;
  snapshot = no_phase;
  db = db;
  schema = schema;
  table = table;
  tx_id = none;
  lsn = none;
  xmin = none;
  file = none;
  pos = none;
  gtid = none;
  sequence = none;
  rs_id = none;
  resume_token = none;
  extra = none;
}

-- `SourceInfo::default`
unfoldable pub default : {V : Type 0} → ℤ → SourceInfo V
default now = record {
  version = text "2.7.2.Final";
  connector = text "opencdc";
  name = text "opencdc";
  ts_ms = some now;
  snapshot = no_phase;
  db = [];
  schema = some (text "public");
  table = [];
  tx_id = none;
  lsn = none;
  xmin = none;
  file = none;
  pos = none;
  gtid = none;
  sequence = none;
  rs_id = none;
  resume_token = none;
  extra = none;
}

module _ {V : Type 0} where
  unfoldable pub with_snapshot : SnapshotPhase → SourceInfo V → SourceInfo V
  with_snapshot phase s = record s { snapshot = phase }

  unfoldable pub with_lsn : ℤ → SourceInfo V → SourceInfo V
  with_lsn lsn s = record s { lsn = some lsn }

  unfoldable pub with_tx_id : ℤ → SourceInfo V → SourceInfo V
  with_tx_id tx_id s = record s { tx_id = some tx_id }

  unfoldable pub with_ts_ms : ℤ → SourceInfo V → SourceInfo V
  with_ts_ms ts_ms s = record s { ts_ms = some ts_ms }

  unfoldable pub with_gtid : Text → SourceInfo V → SourceInfo V
  with_gtid gtid s = record s { gtid = some gtid }

  unfoldable pub with_resume_token : Text → SourceInfo V → SourceInfo V
  with_resume_token token s = record s { resume_token = some token }

  abbrev entries : Option (Map V) → Map V
  entries none = []
  entries (some m) = m

  -- `extra.get_or_insert_default().insert(key, value)`
  unfoldable pub with_extra : Text → V → SourceInfo V → SourceInfo V
  with_extra key value s = record s { extra = some (insert key value (entries s.extra)) }

phase_str_only : (s : Text) (p : SnapshotPhase) → phase_from_str s ≡ some p → s ≡ phase_str p
unfolding phase_from_str phase_str
phase_str_only s p h = ground (
  arith,
  same_iff s (text "true"),
  same_iff s (text "false"),
  same_iff s (text "last"),
  same_iff s (text "incremental"),
)

phase_from_str-phase_str : (p : SnapshotPhase) → phase_from_str (phase_str p) ≡ some p
unfolding phase_from_str phase_str same
phase_from_str-phase_str yes_phase = refl
phase_from_str-phase_str no_phase = refl
phase_from_str-phase_str last = refl
phase_from_str-phase_str incremental = refl

-- A text is read as a snapshot phase exactly when it is that phase's name.
phase_from_str_iff :
    (s : Text) (p : SnapshotPhase) → (phase_from_str s ≡ some p) ↔ (s ≡ phase_str p)
phase_from_str_iff s p = (phase_str_only s p, λ e. rw e (phase_from_str-phase_str p))
