-- ===== src/Mysql/Connector.antt =====
-- crates/opencdc-connector/src/mysql/mod.rs: the connector's state and its methods, and `stream` up to
-- its loop. A client is the two halves of its connection.
use opencdc.Base.{
  ℕ, ◌⊎◌, Option, none, some, [], ◌∷◌, ◌++◌, Text, text, Outcome, done, failed, panicked, ◌>>=◌,
}
use opencdc.Base.Int.{ℤ, pos, unsigned, i32_half}
use opencdc.Core.Error.{Error, other}
use opencdc.Core.Offset.{ConnectorOffset}
use opencdc.Connector.Retry.{mysql_connect_with_retry}
use opencdc.Mysql.Config.{MySqlConnectorConfig}
use opencdc.Mysql.Packets.{Tcp}
use opencdc.Mysql.Commands.{register_slave, dump_gtid, dump_binlog}

pub record MySqlConnector (Client : Type 0) : Type 0 where
  pub config : Option MySqlConnectorConfig
  pub binlog_client : Option Client

module _ {Client : Type 0} where
  unfoldable pub new : MySqlConnector Client
  new = record { config = none; binlog_client = none }

  unfoldable pub with_config : MySqlConnectorConfig → MySqlConnector Client
  with_config config = record { config = some config; binlog_client = none }

  unfoldable pub name : MySqlConnector Client → Text
  name c = elim c.config [ none ↦ text "mysql" | some config ↦ config.database ]

  -- `self.config.as_ref().ok_or_else(..)?`
  unfoldable pub configured : Text → MySqlConnector Client → Outcome Error MySqlConnectorConfig
  configured what c = elim c.config [ none ↦ failed (other what) | some config ↦ done config ]

  -- `connect` is what each attempt to connect under a configuration comes to.
  unfoldable pub start :
      (MySqlConnectorConfig → ℕ → Text ⊎ Client)
      → MySqlConnector Client
      → Outcome Error (MySqlConnector Client)
  start connect c = do
    config ← configured (text "MySqlConnectorConfig not set") c
    client ← (mysql_connect_with_retry (connect config) config.max_reconnect_attempts).0
    done (record c { binlog_client = some client })

  unfoldable pub stop : MySqlConnector Client → MySqlConnector Client
  stop c = record c { binlog_client = none }

-- `map_err(|e| Error::Other(format!("...: {}", e)))`
unfoldable pub wrap : {A : Type 0} → Text → Outcome Text A → Outcome Error A
wrap what (done a) = done a
wrap what (failed e) = failed (other (what ++ e))
wrap what panicked = panicked

-- `.unwrap_or("")` and `.unwrap_or(4)`
abbrev text_or_empty : Option Text → Text
text_or_empty none = []
text_or_empty (some s) = s

abbrev pos_or_four : Option ℤ → ℤ
pos_or_four none = pos 4
pos_or_four (some p) = p

module _ {V : Type 0} where
  unfoldable pub gtid_of : Option (ConnectorOffset V) → Text
  gtid_of none = []
  gtid_of (some o) = text_or_empty o.gtid

  unfoldable pub file_of : Option (ConnectorOffset V) → Text
  file_of none = []
  file_of (some o) = text_or_empty o.file

  unfoldable pub position_of : Option (ConnectorOffset V) → ℕ
  position_of none = 4
  position_of (some o) = unsigned i32_half (pos_or_four o.pos)

  module _ (t : Tcp) (config : MySqlConnectorConfig) where
    open t use {Reader, Writer}

    -- `if !gtid_set.is_empty() { .. } else { .. }`
    unfoldable pub dump :
        Text → Option (ConnectorOffset V) → Reader × Writer → Outcome Error (Reader × Writer)
    dump [] offset client =
        wrap (text "dump binlog: ")
          (dump_binlog t config (file_of offset) (position_of offset) client)
    dump (g ∷ gtid_set) offset (r, w) = do
      w ← wrap (text "dump gtid: ") (dump_gtid t config (g ∷ gtid_set) w)
      done (r, w)

    -- What `stream` does with a new client before it reads events.
    unfoldable pub open_stream :
        Option (ConnectorOffset V) → Reader × Writer → Outcome Error (Reader × Writer)
    open_stream offset client = do
      client ← wrap (text "register slave: ") (register_slave t config client)
      dump (gtid_of offset) offset client
