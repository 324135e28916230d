-- ===== src/Core/Queue.antt =====
-- crates/autoflow-core/src/queue.rs: the state that the worker, the callers and the running jobs share.
-- Each lock section is one step, so that every interleaving of them is a list of actions.
pub mod State
pub mod Worker
pub mod Calls
pub mod Tasks
pub mod Runs
