-- ===== src/App/Execution.antt =====
-- crates/autoflow-application/src/execution.rs: the transfer of one file, the loop over the files of a
-- run, and the report at its end.
pub mod Transfer
pub mod Run
