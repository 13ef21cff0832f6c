-- ===== src/Lib.antt =====
-- opencdc: change data capture. Connectors read a database's replication protocol and send change
-- events into a channel; a pipeline takes them through transforms to sinks; a registry frame wraps
-- what is serialised. The parts and the files that model them:
--
--   * crates/opencdc-core: Core/Error (error.rs), Core/Operation (operation.rs), Core/ConnectorType
--     (connector_type.rs), Core/SourceInfo (source_info.rs), Core/Transaction (transaction.rs),
--     Core/ChangeEvent (change_event.rs) and Core/Offset (offset.rs). The clock's reading is an
--     argument of the constructors that take it. Core/Json is the interface to serde_json, a parameter
--     of whatever builds JSON values; Core/ParseInt and Core/Format are Rust's integer parsing and
--     formatting.
--   * crates/opencdc-connector/src/postgres: Postgres/Decoder (decoder.rs; its children Read, Tuple and
--     Messages hold the definitions), Postgres/Types (types.rs) and Postgres/Stream (replication.rs,
--     from `process_stream` on). The decoder's state is its list of relations; the streamer's is the
--     decoder, `wal_lsn` and the events sent. Postgres/Protocol is an encoder of the protocol's messages,
--     written from the format and not from the decoder, with what each message means.
--   * crates/opencdc-connector/src/mysql: Mysql/Column (column.rs), Mysql/Packed, Mysql/Row and
--     Mysql/Events (binlog.rs: packed integers and bit sets, `read_row`, the event parsers), Mysql/Client
--     (binlog.rs `next_event`, and the loop of `stream` in mod.rs). The client's state is the map of
--     tables and the last GTID.
--     The connection is Mysql/Packets (binlog.rs `read_packet`, `write_command`), Mysql/Handshake
--     (`handshake`, `send_auth`, `read_ok_response`, `connect`), Mysql/Commands (`register_slave`,
--     `dump_gtid`, `dump_binlog`), Mysql/Config (config.rs) and Mysql/Connector (mod.rs: the connector's
--     state, and `stream` up to its loop). Mysql/Snapshot with its children Query and Run is snapshot.rs.
--     Mysql/Handshake/Greeting is an encoder of the server's greeting and Mysql/Snapshot/Rows one of the
--     rows of an answer, both written from the protocol.
--   * crates/opencdc-connector/src/mongodb: Mongodb/Config (config.rs), Mongodb/Bson (snapshot.rs, from
--     documents to JSON), Mongodb/Stream (stream.rs), Mongodb/Snapshot (snapshot.rs `run`) and
--     Mongodb/Connector (mod.rs). The driver's answers are parameters, a cursor the list that it yields.
--   * crates/opencdc-connector/src: Connector/Retry, `connect_with_retry` of the three connectors, over
--     what each attempt comes to.
--   * crates/opencdc-pipeline: Pipeline/Error, Pipeline/Transform, Pipeline/Sink and Pipeline/Run
--     (error.rs, transform.rs, sink.rs, pipeline.rs). Transforms and sinks are records of operations,
--     as the traits are; a connector is one that sends its events before its method returns, which is
--     how the connectors here are written, into a bounded channel (Pipeline/Channel, tokio's mpsc channel by
--     what it documents). A call of `run` returns or waits for ever.
--   * crates/opencdc-core/src/schema.rs and crates/opencdc-schema: Schema/Types and Schema/Fields
--     (schema.rs: Debezium's schema types and the builders of fields), Schema/Evolution (evolution.rs: the
--     differences of two schemas and the evolved schema; the orders in which two hash maps are visited are
--     parameters), Schema/Arrow with its children Envelope and Bridge (opencdc-core's arrow.rs and
--     arrow_bridge.rs), Schema/Builder (builder.rs), Schema/Naming (naming.rs) and Schema/Client (registry.rs,
--     the client of the schema registry, over what an HTTP request comes to).
--   * crates/opencdc-serde/src: Serde/Registry (registry.rs, the frame with the schema's id),
--     Serde/Envelope (envelope.rs) and Serde/Avro with its child Envelope (avro.rs).
--   * crates/opencdc-mcp/src: Mcp/State (state.rs, the connectors and counters of the server, with each
--     call as a step; the task that `run_snapshot` starts is a step of its own, `finish_snapshot`),
--     Mcp/Service (service.rs, the seven tools on that state, of which `snapshot_start` takes two steps) and
--     Mcp/Endpoint (health.rs, the answers of the health endpoint).
--   * crates/opencdc-sink-openlake/src/lib.rs: OpenLake, the sink over a table store.
--
-- Base holds the shared names and lemmas; Base/Outcomes is what a Rust function may do: return, return
-- an error, or panic, which an index or a slice out of range does. Wire is reading at an offset. Numbers
-- are natural numbers; machine integers keep their wrap-around, and Base/Int reads a bit pattern as a
-- signed number. Strings are their UTF-8 bytes; Wire/Utf8 is `from_utf8_lossy`.
--
-- Bounds: the row loops of binlog.rs are recursion on fuel, started with the number of bytes, which is
-- enough since each round takes a byte; `next_event` is recursion on the list of packets, and
-- `scan_packet` is started with the packet's length, which is enough since each round that goes on
-- takes the 19 bytes of a header (in Mysql/Events/Rows and Mysql/Client/Scan). All other loops are
-- recursion on the data.
--
-- In mysql/snapshot.rs the reader behind `read_mysql_packet` is what it yields, packets and then a
-- failing read with its error's text, so that the loops are recursion on that.
--
-- Not modelled: the PostgreSQL connection and its snapshot reader, JSON and Arrow
-- batches of events, configuration files, the REST sink of openlake and the demo. Code
-- outside the repository is a parameter: serde_json's values, the parsing of floating-point numbers,
-- `hex::encode`, SHA-1, TCP connections, HTTP requests, openlake's table store,
-- Arrow's batches and the MongoDB driver.
pub mod Base
pub mod Wire
pub mod Core
pub mod Postgres
pub mod Connector
pub mod Mysql
pub mod Mongodb
pub mod Pipeline
pub mod Schema
pub mod Serde
pub mod Mcp
pub mod OpenLake
pub mod Examples
