-- ===== src/Schema/Naming.antt =====
-- crates/opencdc-schema/src/naming.rs: the names of topics, schemas and subjects.
use opencdc.Base.{Option, none, some, Text, text, ◌++◌}
use opencdc.Core.ConnectorType.{ConnectorType, as_str}

unfoldable pub topic_name : Text → Option Text → Text → Text
topic_name prefix (some s) table = prefix ++ (text "." ++ (s ++ (text "." ++ table)))
topic_name prefix none table = prefix ++ (text "." ++ table)

unfoldable pub table_schema_name : ConnectorType → Text → Option Text → Text → Text
unfolding topic_name
table_schema_name connector db schema table =
    topic_name (as_str connector ++ (text "." ++ db)) schema table

unfoldable pub envelope_name : ConnectorType → Text → Option Text → Text → Text
envelope_name connector db schema table =
    table_schema_name connector db schema table ++ text ".Envelope"

unfoldable pub key_name : ConnectorType → Text → Option Text → Text → Text
key_name connector db schema table = table_schema_name connector db schema table ++ text ".Key"

unfoldable pub source_name : ConnectorType → Text
source_name connector = text "io.debezium.connector." ++ (as_str connector ++ text ".Source")

unfoldable pub subject_name : Text → Option Text → Text → Text → Text
subject_name prefix schema table suffix = topic_name prefix schema table ++ (text "-" ++ suffix)

unfoldable pub value_subject : Text → Option Text → Text → Text
value_subject prefix schema table = subject_name prefix schema table (text "value")

unfoldable pub key_subject : Text → Option Text → Text → Text
key_subject prefix schema table = subject_name prefix schema table (text "key")
