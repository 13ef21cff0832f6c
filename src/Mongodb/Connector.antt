-- ===== src/Mongodb/Connector.antt =====
-- crates/opencdc-connector/src/mongodb/mod.rs: the connector's state and its methods.
use opencdc.Base.{
  ℕ, Bool, ◌⊎◌, Option, none, some, List, [], Text, text, Outcome, done, failed, panicked, ◌>>=◌,
}
use opencdc.Base.Int.{ℤ}
use opencdc.Core.Error.{Error, other}
use opencdc.Core.Json.{SerdeJson}
use opencdc.Core.ConnectorType.{ConnectorType, mongodb}
use opencdc.Core.ChangeEvent.{ChangeEvent}
use opencdc.Core.Offset.{ConnectorOffset}
use opencdc.Connector.Retry.{mongodb_connect_with_retry}
use opencdc.Mongodb.Config.{MongoDbConnectorConfig}
use opencdc.Mongodb.Bson.{Document, BsonText}
use opencdc.Mongodb.Stream.{ChangeStreamEvent, run as run_stream}
use opencdc.Mongodb.Snapshot.{run as run_snapshotter}

pub record MongoDbConnector : Type 0 where
  pub config : Option MongoDbConnectorConfig

unfoldable pub new : MongoDbConnector
new = record { config = none }

unfoldable pub with_config : MongoDbConnectorConfig → MongoDbConnector
with_config config = record { config = some config }

unfoldable pub name : MongoDbConnector → Text
name c = elim c.config [ none ↦ text "mongodb" | some config ↦ config.database ]

unfoldable pub connector_type : MongoDbConnector → ConnectorType
connector_type c = mongodb

-- `self.config.as_ref().ok_or_else(..)?`
unfoldable pub configured : Text → MongoDbConnector → Outcome Error MongoDbConnectorConfig
configured what c = elim c.config [ none ↦ failed (other what) | some config ↦ done config ]

-- The driver: what each attempt to connect and each ping comes to, what the further connection of a
-- snapshot or a stream comes to, and the answers.
pub record Driver (Client Token Other : Type 0) : Type 0 where
  pub connect : MongoDbConnectorConfig → ℕ → Text ⊎ Client
  pub ping : MongoDbConnectorConfig → ℕ → Client → Text ⊎ Unit {0}
  pub connect_once : MongoDbConnectorConfig → Text ⊎ Unit {0}
  pub list_collection_names : Text ⊎ List Text
  pub find : Text → Text ⊎ List (Text ⊎ Document Other)
  pub watch :
      Option (List (Document Other)) → Option Token → Text ⊎ List (Text ⊎ ChangeStreamEvent Other)
  -- `serde_json::from_str::<ResumeToken>`
  pub parse_token : Text → Option Token

module _ {Client Token Other : Type 0} (d : Driver Client Token Other) where
  unfoldable pub connect_configured : MongoDbConnectorConfig → Outcome Error Client
  connect_configured config =
      (mongodb_connect_with_retry (d.connect config) (d.ping config)
        config.max_reconnect_attempts).0

  unfoldable pub start : MongoDbConnector → Outcome Error Unit
  start c = do
    config ← configured (text "MongoDbConnectorConfig not set") c
    client ← connect_configured config
    done tt

  -- `ctx.offset`, its token, and the token's value, where each is there
  unfoldable pub resume_token_of : {V : Type 0} → Option (ConnectorOffset V) → Option Token
  resume_token_of none = none
  resume_token_of (some o) = elim o.resume_token [ none ↦ none | some s ↦ d.parse_token s ]

  module _ (j : SerdeJson) (t : BsonText Other) (Schema : Type 0) (now : ℤ) where
    open j use {Value}

    abbrev Sent : Type 0
    Sent = List (ChangeEvent Value Schema)

    abbrev with_sent :
        {A B : Type 0} → (A → Sent × Outcome Error B) → Outcome Error A → Sent × Outcome Error B
    with_sent f (done a) = f a
    with_sent f (failed e) = ([], failed e)
    with_sent f panicked = ([], panicked)

    unfoldable pub snapshot :
        (ℕ → Bool)
        → (ℕ → Bool)
        → List Text
        → MongoDbConnector
        → Sent × Outcome Error (ConnectorOffset Value)
    snapshot is_closed send_fails tables c =
        with_sent
          (λ config.
            run_snapshotter j t Schema now config send_fails is_closed (d.connect_once config)
              d.list_collection_names d.find tables)
          (configured (text "config not set") c)

    unfoldable pub stream :
        (ℕ → Bool) → Option (ConnectorOffset Value) → MongoDbConnector → Sent × Outcome Error Unit
    stream send_fails offset c =
        with_sent
          (λ config.
            with_sent
              (λ client.
                run_stream j t Schema now send_fails (d.connect_once config) d.watch config
                  (resume_token_of offset))
              (connect_configured config))
          (configured (text "config not set") c)
