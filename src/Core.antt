-- ===== src/Core.antt =====
-- crates/autoflow-core.
pub mod Queue
pub mod Scheduler
pub mod Watch
