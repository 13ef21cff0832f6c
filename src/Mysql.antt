-- ===== src/Mysql.antt =====
-- crates/opencdc-connector/src/mysql: the binlog client's parsers and the row decoder.
pub mod Column
pub mod Packed
pub mod Row
pub mod Events
pub mod Client
pub mod Config
pub mod Packets
pub mod Handshake
pub mod Commands
pub mod Snapshot
pub mod Connector
