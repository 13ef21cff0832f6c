-- ===== src/Postgres.antt =====
-- crates/opencdc-connector/src/postgres: the pgoutput decoder and the replication stream.
pub mod Decoder
pub mod Protocol
pub mod Types
pub mod Stream
