-- ===== src/Postgres/Decoder.antt =====
-- crates/opencdc-connector/src/postgres/decoder.rs: the pgoutput messages and their decoder.
-- `offset: &mut usize` is passed in and returned. `with_capacity` only reserves memory.
mod Read
mod Tuple
mod Messages
pub mod Memory
unfoldable pub use Read.*
unfoldable pub use Tuple.*
unfoldable pub use Messages.*
