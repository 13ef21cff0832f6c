-- ===== src/Core.antt =====
-- crates/opencdc-core: the types that the other crates share.
pub mod Error
pub mod Operation
pub mod ConnectorType
pub mod SourceInfo
pub mod Transaction
pub mod ChangeEvent
pub mod Offset
pub mod Json
pub mod ParseInt
pub mod Format
