-- ===== src/Mcp.antt =====
-- crates/opencdc-mcp: the state that the tools of the server share.
pub mod State
pub mod Accounts
pub mod Health
pub mod Meanwhile
pub mod Endpoint
pub mod Service
