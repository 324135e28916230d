-- ===== src/App.antt =====
-- crates/autoflow-application.
pub mod Files
pub mod Rollback
pub mod Execution
pub mod Blueprints
