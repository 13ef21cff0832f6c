-- ===== src/Mysql/Config.antt =====
-- crates/opencdc-connector/src/mysql/config.rs: the connector's configuration and its builder. A
-- duration is its number of seconds.
use opencdc.Base.{ℕ, List, [], Text}

pub record MySqlConnectorConfig : Type 0 where
  pub host : Text
  pub port : ℕ
  pub user : Text
  pub password : Text
  pub database : Text
  pub server_id : ℕ
  pub tables : List Text
  pub heartbeat_interval : ℕ
  pub max_reconnect_attempts : ℕ

unfoldable pub new : Text → ℕ → Text → Text → Text → MySqlConnectorConfig
new host port user password database = record {
  host = host;
  port = port;
  user = user;
  password = password;
  database = database;
  server_id = 1001;
  tables = [];
  heartbeat_interval = 30;
  max_reconnect_attempts = 5;
}

unfoldable pub with_server_id : ℕ → MySqlConnectorConfig → MySqlConnectorConfig
with_server_id id c = record c { server_id = id }

unfoldable pub with_tables : List Text → MySqlConnectorConfig → MySqlConnectorConfig
with_tables tables c = record c { tables = tables }

unfoldable pub with_heartbeat_interval : ℕ → MySqlConnectorConfig → MySqlConnectorConfig
with_heartbeat_interval interval c = record c { heartbeat_interval = interval }

unfoldable pub with_max_reconnect_attempts : ℕ → MySqlConnectorConfig → MySqlConnectorConfig
with_max_reconnect_attempts attempts c = record c { max_reconnect_attempts = attempts }
