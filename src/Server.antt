-- ===== src/Server.antt =====
-- crates/autoflow-admin-server/src/lib.rs, with the store in memory. A lock is never poisoned.
pub mod State
pub mod Access
pub mod Names
pub mod Deliveries
pub mod Commands
pub mod Calls
pub mod Agents
pub mod Audit
pub mod Routes
pub mod Runs
mod Samples
mod Tests
