-- ===== src/Core/Watch.antt =====
-- crates/autoflow-core/src/watch.rs.
pub mod Service
pub mod Polling
pub mod Targets
mod Tests
