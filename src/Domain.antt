-- ===== src/Domain.antt =====
-- crates/autoflow-domain.
pub mod Error
pub mod Schedule
pub mod PathPolicy
pub mod Counter
pub mod Watch
pub mod FileFilter
pub mod Filter
pub mod Options
pub mod Job
pub mod Rollback
pub mod Admin
pub mod Tokenizer
pub mod Blueprint
