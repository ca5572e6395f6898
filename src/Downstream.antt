-- ===== src/Downstream.antt =====
-- src/downstream.rs: the gateway's own MCP endpoint.
pub mod Auth
pub mod Rpc
pub mod Tools
pub mod Message
pub mod Response
pub mod Serve
