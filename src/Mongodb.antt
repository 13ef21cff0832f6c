-- ===== src/Mongodb.antt =====
-- crates/opencdc-connector/src/mongodb: the connector. The driver and its documents are parameters.
pub mod Config
pub mod Bson
pub mod Stream
pub mod Snapshot
pub mod Connector
