-- ===== src/Connector.antt =====
-- crates/opencdc-connector/src: what the connectors have in common.
pub mod Retry
