-- ===== src/Lib.antt =====
-- A verification library for the Rust core of TidyFlow.
--
-- The program moves and copies files by jobs. A job (crates/autoflow-domain) is normalised and
-- validated, is started by a schedule, a watch or a user through the queue (crates/autoflow-core),
-- and is run over the files of its source (crates/autoflow-application); what a run did can be rolled
-- back from the manifest that it saved (crates/autoflow-infrastructure).
--
-- Base: shared helpers. Base/Text.antt has texts as lists of code points with what is used of `str` and
--   `char`; Base/Map.antt hash maps as association lists; Base/Search.antt the loop over a range that
--   returns the first result.
-- Domain/Schedule.antt: crates/autoflow-domain/src/schedule.rs. chrono is the parameter `Chrono`, with
--   the laws `IsCalendar`, and `KeepsDate` (the local date never goes back), where a theorem needs them;
--   instants are nanoseconds, dates day numbers. The source writes the body of next_run twice, for the
--   local and for a named zone; here it stands once.
-- Domain/PathPolicy.antt: path_policy.rs, on a Unix host. dunce::canonicalize is a parameter, with the
--   laws `IsCanonical`. Names are measured in bytes of UTF-8, as `str::len` does.
-- Domain/Job.antt, Domain/Options.antt: job.rs, transfer.rs, scripts.rs and notify.rs. `Utc::now()` is an
--   argument of `normalize`, and the regex compiler one of `validate`.
-- Domain/Counter.antt, Domain/Watch.antt, Domain/FileFilter.antt: counter.rs, watch.rs with naming.rs,
--   and file_filter.rs. The digits of a counter are written with fuel, one more than the number.
-- Domain/Filter.antt: filter.rs, on a Unix host. The file system, the walk, globs, regular expressions and
--   `to_lowercase` are the parameter `Outside`.
-- Domain/Rollback.antt: rollback.rs and the entries of audit.rs. Domain/Error.antt: error.rs.
-- Domain/Tokenizer.antt: crates/autoflow-domain/src/tokenizer. Display.antt has parse_template and
--   format_template of display.rs, Transforms.antt the transforms and Evaluate.antt the evaluation of
--   mod.rs. What the standard library knows of Unicode, the regex library, and the texts of times and
--   identifiers are the parameters `Unicode` and `Formats`; `parse` of a number is that of 64 bits.
-- Domain/Blueprint.antt: crates/autoflow-domain/src/blueprint.rs.
-- App/Blueprints: of crates/autoflow-application/src/blueprints.rs the plans of folder blueprints:
--   Variables.antt the values of the variables, Paths.antt the paths of an action, Folders.antt the
--   actions of the nodes, and Plans.antt the plan with its checks. What is read of the disk and the clock
--   is the parameter `World`.
-- Core/Watch: crates/autoflow-core/src/watch.rs. Service.antt has the event loop with blueprint_busy
--   and the suppression, where each lock section is one step and a list of actions one interleaving;
--   Polling.antt the rounds of a poll, with the callbacks of the debouncers in Polling/Realtime.antt;
--   and Targets.antt the handles that are registered and the poll tasks, which outlive them. `notify`,
--   the walk of a directory and the blueprint runs that the loop spawns are outside.
-- Core/Queue: crates/autoflow-core/src/queue.rs. State.antt has the shared state, Worker.antt the loop of
--   JobQueue::start, Calls.antt enqueue, cancel, pause, resume and stop_all, and Tasks.antt the callbacks
--   and the end of a spawned run. Each lock section is one step, and Runs.antt runs any list of steps.
--   The calls are one step each; a wake-up of the paused worker may come at any time.
-- Core/Scheduler.antt: crates/autoflow-core/src/scheduler.rs, with the lookup and the saving of a job
--   of crates/autoflow-infrastructure/src/jobs.rs and the missed schedules of ui_state.rs. What is
--   outside, the failures of the database and the readings of the clock among it, is the parameter
--   `Outside`. App/Files.antt: std::fs and std::path, with file_hash and files_equal of
--   crates/autoflow-domain/src/lib.rs. A path is the list of its components; a `Host` says which
--   operations are refused, what a copy writes, and what hash a content has.
-- App/Execution: crates/autoflow-application/src/execution.rs. Transfer.antt has process_file and
--   resolve_target, whose loop over 1..1000 is a search of 999 rounds; Run.antt has the loop of run_job
--   over the files, with a function for the state of the cancellation token at each round, and the
--   report; Run/Rest.antt what follows the loop, where the post-script and the packing are parameters. What
--   the audit log refuses is one too. Percentages and durations are left out: they are floats.
-- App/Rollback.antt: crates/autoflow-application/src/rollback.rs over the table of
--   crates/autoflow-infrastructure/src/rollback.rs.
-- Domain/Admin.antt, Domain/Admin/Envelope.antt: crates/autoflow-domain/src/admin.rs. blake3, serde_json
--   and the texts of times and identifiers are the parameters `Crypto` and `Transport`.
-- Server: crates/autoflow-admin-server/src/lib.rs with the store in memory. State.antt has the state,
--   Access.antt the authorisation, Commands.antt the queue of commands with Deliveries.antt, Calls.antt
--   and Agents.antt the calls of operators and of agents, Audit.antt the central audit, Routes.antt the
--   handlers, and Runs.antt sequences of requests. Each handler is taken as one step: the interleavings
--   of the lock sections of two handlers are not modelled. New identifiers and readings of the clock are
--   arguments.
--
-- Counters of type u32 are not bounded here: none of them passes the number of files of a run.
-- Not modelled: the scripts, packing and notifications around a run, the database below the stores,
-- the carrying out of folder plans, file blueprints, the automatic correction of names, settings, the
-- admin server's SQLite store, the agent that polls it, and the user interface.
pub mod Base
pub mod Domain
pub mod Core
pub mod App
pub mod Server
