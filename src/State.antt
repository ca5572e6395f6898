-- ===== src/State.antt =====
-- src/state.rs: the shared state of the gateway.
pub mod Histogram
pub mod Metrics
pub mod App
pub mod Sessions
