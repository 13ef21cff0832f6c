-- ===== src/Schema.antt =====
-- crates/opencdc-schema and the schema types of crates/opencdc-core.
pub mod Types
pub mod Evolution
pub mod Policy
pub mod Agreement
pub mod Client
pub mod Fields
pub mod Naming
pub mod Builder
pub mod Arrow
