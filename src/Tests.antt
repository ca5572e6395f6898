-- ===== src/Tests.antt =====
-- Concrete inputs for the theorems, and the theorems at them.
mod Data
mod Config
mod State
mod Reload
mod Upstream
mod Downstream
mod Tools
mod Exposition
mod Gateway
