-- ===== src/Core/ConnectorType.antt =====
-- crates/opencdc-core/src/connector_type.rs: the connector types, their names and their aliases.
use opencdc.Base.{◌≡◌, refl, Option, none, some, Text, text, same, ◌||◌, if◌then◌else◌}

pub data ConnectorType : Type 0 where
  postgres mysql mongodb sql_server oracle db2 cassandra vitess : ConnectorType

unfoldable pub as_str : ConnectorType → Text
as_str postgres = text "postgresql"
as_str mysql = text "mysql"
as_str mongodb = text "mongodb"
as_str sql_server = text "sqlserver"
as_str oracle = text "oracle"
as_str db2 = text "db2"
as_str cassandra = text "cassandra"
as_str vitess = text "vitess"

unfoldable pub from_str : Text → Option ConnectorType
from_str s =
    if same s (text "postgresql") || same s (text "postgres")
    then some postgres
    else if same s (text "mysql") || same s (text "mariadb")
    then some mysql
    else if same s (text "mongodb") || same s (text "mongo")
    then some mongodb
    else if same s (text "sqlserver") || same s (text "sql_server")
    then some sql_server
    else if same s (text "oracle")
    then some oracle
    else if same s (text "db2")
    then some db2
    else if same s (text "cassandra")
    then some cassandra
    else if same s (text "vitess")
    then some vitess
    else none

unfoldable pub debezium_class_name : ConnectorType → Text
debezium_class_name postgres = text "io.debezium.connector.postgresql.PostgresConnector"
debezium_class_name mysql = text "io.debezium.connector.mysql.MySqlConnector"
debezium_class_name mongodb = text "io.debezium.connector.mongodb.MongoDbConnector"
debezium_class_name sql_server = text "io.debezium.connector.sqlserver.SqlServerConnector"
debezium_class_name oracle = text "io.debezium.connector.oracle.OracleConnector"
debezium_class_name db2 = text "io.debezium.connector.db2.Db2Connector"
debezium_class_name cassandra = text "io.debezium.connector.cassandra.CassandraConnector"
debezium_class_name vitess = text "io.debezium.connector.vitess.VitessConnector"

abbrev pub debezium_version : Text
debezium_version = text "2.7.2.Final"

-- Each type is read back from its own name, so no two types share a name.
from_str-as_str : (c : ConnectorType) → from_str (as_str c) ≡ some c
unfolding from_str as_str same
from_str-as_str postgres = refl
from_str-as_str mysql = refl
from_str-as_str mongodb = refl
from_str-as_str sql_server = refl
from_str-as_str oracle = refl
from_str-as_str db2 = refl
from_str-as_str cassandra = refl
from_str-as_str vitess = refl
