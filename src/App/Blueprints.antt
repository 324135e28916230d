-- ===== src/App/Blueprints.antt =====
-- crates/autoflow-application/src/blueprints.rs.
pub mod Variables
pub mod Paths
pub mod Folders
pub mod Plans
