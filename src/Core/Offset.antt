-- ===== src/Core/Offset.antt =====
-- crates/opencdc-core/src/offset.rs: the offset that a connector resumes from.
-- `V` is serde_json's value type.
use opencdc.Base.{Bool, true, false, Option, none, some, Text, Map}
use opencdc.Base.Int.{ℤ}

pub record ConnectorOffset (V : Type 0) : Type 0 where
  pub lsn : Option ℤ
  pub tx_id : Option ℤ
  pub ts_ms : Option ℤ
  pub snapshot : Option Bool
  pub snapshot_completed : Option Bool
  pub file : Option Text
  pub pos : Option ℤ
  pub gtid : Option Text
  pub resume_token : Option Text
  pub source_partition : Option Text
  pub extra : Option (Map V)

abbrev unwrap_or_false : Option Bool → Bool
unwrap_or_false none = false
unwrap_or_false (some b) = b

module _ {V : Type 0} where
  abbrev pub default : ConnectorOffset V
  default = record {
    lsn = none;
    tx_id = none;
    ts_ms = none;
    snapshot = none;
    snapshot_completed = none;
    file = none;
    pos = none;
    gtid = none;
    resume_token = none;
    source_partition = none;
    extra = none;
  }

  unfoldable pub from_lsn : ℤ → ConnectorOffset V
  from_lsn lsn = record default { lsn = some lsn }

  unfoldable pub from_gtid : Text → ConnectorOffset V
  from_gtid gtid = record default { gtid = some gtid }

  unfoldable pub from_binlog_position : Text → ℤ → ConnectorOffset V
  from_binlog_position file at = record default { file = some file; pos = some at }

  unfoldable pub from_resume_token : Text → ConnectorOffset V
  from_resume_token token = record default { resume_token = some token }

  unfoldable pub snapshot_start : ConnectorOffset V
  snapshot_start = record default { snapshot = some true; snapshot_completed = some false }

  unfoldable pub snapshot_done : ConnectorOffset V
  snapshot_done = record default { snapshot = some false; snapshot_completed = some true }

  unfoldable pub is_snapshot : ConnectorOffset V → Bool
  is_snapshot o = unwrap_or_false o.snapshot

  unfoldable pub is_snapshot_completed : ConnectorOffset V → Bool
  is_snapshot_completed o = unwrap_or_false o.snapshot_completed

  unfoldable pub with_ts_ms : ℤ → ConnectorOffset V → ConnectorOffset V
  with_ts_ms ts_ms o = record o { ts_ms = some ts_ms }

  unfoldable pub with_tx_id : ℤ → ConnectorOffset V → ConnectorOffset V
  with_tx_id tx_id o = record o { tx_id = some tx_id }
