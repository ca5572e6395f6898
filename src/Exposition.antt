-- ===== src/Exposition.antt =====
-- src/metrics.rs: what the gateway shows of its state.
pub mod Labels
pub mod Health
pub mod Numbers
pub mod Family
pub mod Process
pub mod Page
