-- ===== src/Serde.antt =====
-- crates/opencdc-serde: the wire format of the schema registry.
pub mod Registry
pub mod Envelope
pub mod Avro
