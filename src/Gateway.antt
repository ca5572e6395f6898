-- ===== src/Gateway.antt =====
-- src/main.rs: the process: how it starts, what it serves, its tasks and its end.
pub mod Healthy
pub mod Others
pub mod Startup
pub mod Tasks
pub mod Routes
pub mod Run
