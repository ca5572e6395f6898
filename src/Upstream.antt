-- ===== src/Upstream.antt =====
-- src/upstream.rs: the connections to the upstream MCP servers.
pub mod Kept
pub mod Backoff
pub mod Sse
pub mod Classify
pub mod Body
pub mod Registry
pub mod Host
pub mod Send
pub mod Session
pub mod Request
pub mod Manager
