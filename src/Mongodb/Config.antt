-- ===== src/Mongodb/Config.antt =====
-- crates/opencdc-connector/src/mongodb/config.rs: the connector's configuration and its builder.
use opencdc.Base.{ℕ, List, [], Text}

pub record MongoDbConnectorConfig : Type 0 where
  pub connection_string : Text
  pub database : Text
  pub collections : List Text
  pub max_reconnect_attempts : ℕ

unfoldable pub new : Text → Text → MongoDbConnectorConfig
new connection_string database = record {
  connection_string = connection_string;
  database = database;
  collections = [];
  max_reconnect_attempts = 5;
}

unfoldable pub with_collections : List Text → MongoDbConnectorConfig → MongoDbConnectorConfig
with_collections collections c = record c { collections = collections }

unfoldable pub with_max_reconnect_attempts : ℕ → MongoDbConnectorConfig → MongoDbConnectorConfig
with_max_reconnect_attempts attempts c = record c { max_reconnect_attempts = attempts }
