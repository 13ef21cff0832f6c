-- ===== src/Postgres/Protocol.antt =====
-- The pgoutput wire format, version 1, as an encoder: the independent description that the decoder
-- of decoder.rs is held to.
mod Format
pub mod Numbers
pub mod Tuples
mod Messages
pub mod Relations
pub mod RoundTrip
pub use Messages.*
pub use Format.*
