-- ===== src/App/Execution/Run.antt =====
-- The loop of `run_job` over the collected files, and the report at its end. The files are collected
-- before it. `append` says why the audit log, as it is, refuses an entry; the first refusal ends the run.
pub mod Audited
pub mod Counts
pub mod Live
pub mod Loop
pub mod Preserved
pub mod Rest
pub mod Undone
mod Tests
use tidyflow.App.Execution.Transfer.{process_file}
use tidyflow.Domain.Counter.{to_string}
use tidyflow.Domain.PathPolicy.{is_path_under_root, normalize_path}
use tidyflow.Core.Queue.State.{ExecutionCompleted}
use tidyflow.Base.Text.{Text, msg, codes}
use tidyflow.App.Files.{Host, Files, FilePath, file_name, file_hash, metadata, is_dir, display}
use tidyflow.Base.{
  ℕ, some, Bool, List, if◌then◌else◌, [], Option, true, ◌==◌, ◌∷◌, false, not, ◌++◌, ◌+◌, ltb, none,
  ◌&&◌, ◌||◌, is_some, ok, length, err, Result,
}
use tidyflow.Domain.Job.{Job}
use tidyflow.Domain.Job
use tidyflow.Domain.Rollback.{
  AuditStatus, copied, moved, ignored, organized, rolled_back, RollbackItem, NewAuditEntry,
}
use tidyflow.Domain.Rollback

-- The variables of the loop.
pub record RunState : Type 0 where
  pub files : Files
  -- The newest line is the head.
  pub recent_log : List Text
  pub processed : ℕ
  pub failed : ℕ
  pub skipped : ℕ
  pub aborted : Bool
  pub rollback_items : List (RollbackItem FilePath)
  pub audit : List (NewAuditEntry FilePath)
  -- What `run_job` returns early with.
  pub error : Option Text

unfoldable pub start_run : Files → RunState
start_run fs = record {
  files = fs;
  recent_log = [];
  processed = 0;
  failed = 0;
  skipped = 0;
  aborted = false;
  rollback_items = [];
  audit = [];
  error = none;
}

-- `recent_log.insert(0, line); if recent_log.len() > 10 { recent_log.pop(); }`.
drop_last : List Text → List Text
drop_last [] = []
drop_last (x ∷ []) = []
drop_last (x ∷ y ∷ xs) = x ∷ drop_last (y ∷ xs)

pub push_log : Text → List Text → List Text
unfolding drop_last
push_log line log = if ltb 10 (length (line ∷ log)) then drop_last (line ∷ log) else line ∷ log

status_label : AuditStatus → Text
status_label copied = msg "COPIED"
status_label moved = msg "MOVED"
status_label ignored = msg "SKIPPED"
status_label Rollback.failed = msg "FAILED"
status_label organized = msg "ORGANIZED"
status_label rolled_back = msg "ROLLED_BACK"

is_transfer : AuditStatus → Bool
is_transfer copied = true
is_transfer moved = true
is_transfer _ = false

pub is_ignored : AuditStatus → Bool
is_ignored ignored = true
is_ignored _ = false

module _ (host : Host) (canonicalize : Text → Option Text)
    (append : List (NewAuditEntry FilePath) → NewAuditEntry FilePath → Option Text) (job : Job)
    (source target_dir : FilePath) where
  name_of : FilePath → Text
  name_of p = elim (file_name p) [ none ↦ codes "file" | some n ↦ n ]

  -- `file_hash(&target_path).ok()`, for what was copied or moved.
  pub hash_of : AuditStatus → FilePath → Files → Option ℕ
  unfolding is_transfer
  hash_of status p fs =
      if is_transfer status
      then elim (file_hash host p fs) [ ok h ↦ some h | err e ↦ none ]
      else none

  size_of : FilePath → Files → ℕ
  size_of p fs = elim (metadata host p fs) [ ok d ↦ d.size | err e ↦ 0 ]

  pub entry_of : AuditStatus → FilePath → FilePath → ℕ → Option Text → NewAuditEntry FilePath
  entry_of status from to size details = record {
    job_id = some job.id;
    blueprint_id = none;
    job_name = job.name;
    source_path = from;
    target_path = to;
    status = status;
    file_size = size;
    details = details;
  }

  -- `audit.append(entry).await?`, where no entry was refused before.
  pub log_entry : NewAuditEntry FilePath → RunState → RunState
  log_entry entry s = record s {
    audit = elim (append s.audit entry) [ none ↦ entry ∷ s.audit | some e ↦ s.audit ];
    error = append s.audit entry;
  }

  -- The file was transferred or left out.
  count_ok : FilePath → FilePath → AuditStatus → RunState → RunState
  unfolding name_of hash_of is_ignored status_label
  count_ok file target status s = record s {
    rollback_items =
        s.rollback_items
        ++ record {
          source_path = file;
          target_path = target;
          mode = job.mode;
          status = status;
          target_hash = hash_of status target s.files;
          is_directory = is_dir (s.files file);
        }
          ∷ [];
    skipped = if is_ignored status then s.skipped + 1 else s.skipped;
    processed = if is_ignored status then s.processed else s.processed + 1;
    recent_log = push_log (name_of file ++ (msg " -> " ++ status_label status)) s.recent_log;
  }

  on_ok : FilePath → FilePath → AuditStatus → RunState → RunState
  unfolding count_ok log_entry size_of entry_of
  on_ok file target status s =
      log_entry (entry_of status file target (size_of file s.files) none)
        (count_ok file target status s)

  pub on_failed : FilePath → RunState → RunState
  on_failed file s = record s {
    failed = s.failed + 1;
    recent_log = push_log (msg "FALHA " ++ name_of file) s.recent_log;
  }

  -- The loop is left where a failure stops it, unless the entry was refused.
  stop_if_asked : RunState → RunState
  stop_if_asked s = record s {
    aborted = if is_some s.error then s.aborted else job.options.stop_on_integrity_error;
  }

  on_err : FilePath → Text → RunState → RunState
  unfolding on_failed log_entry entry_of stop_if_asked
  on_err file details s =
      stop_if_asked
        (log_entry (entry_of Rollback.failed file target_dir 0 (some details)) (on_failed file s))

  pub settle_file : FilePath → Result Text (FilePath × AuditStatus) → RunState → RunState
  unfolding on_ok on_err
  settle_file file (ok (target, status)) s = on_ok file target status s
  settle_file file (err details) s = on_err file details s

  -- One round: a file outside of the source is not touched.
  run_file : FilePath → RunState → RunState
  unfolding settle_file on_failed
  run_file file s =
      if not (
        is_path_under_root canonicalize (normalize_path canonicalize (display file))
          (normalize_path canonicalize (display source)))
      then on_failed file s
      else let r = process_file host job file target_dir source s.files in
        settle_file file r.0 (record s { files = r.1 })

  -- The loop; `cancelled i` says whether the token is cancelled before the round of file `i`.
  pub run_files : (ℕ → Bool) → ℕ → List FilePath → RunState → RunState
  run_files cancelled i [] s = s
  run_files cancelled i (file ∷ rest) s =
      let t = run_file file s in
      let after = run_files cancelled (i + 1) rest t in
      if cancelled i then s else if t.aborted || is_some t.error then t else after

-- The report, where `cancelled` is the state of the token at the end.
success : Bool → RunState → Bool
success cancelled s = s.failed == 0 && not cancelled && not s.aborted

detail : Bool → RunState → Option Text
detail cancelled s =
    if cancelled
    then some (msg "cancelled")
    else if s.aborted
    then some (msg "aborted on integrity error")
    else if ltb 0 s.failed
    then some
        (to_string s.failed ++ (msg " file(s) failed, " ++ (to_string s.skipped ++ msg " skipped")))
    else if ltb 0 s.skipped
    then some
        (to_string s.processed ++ (msg " processed, " ++ (to_string s.skipped ++ msg " skipped")))
    else none

-- There is none when the run returned early.
unfoldable pub report : ℕ → ℕ → Bool → RunState → Option ExecutionCompleted
unfolding success detail
report execution_id job_id cancelled s =
    if is_some s.error
    then none
    else some (record {
      execution_id = execution_id;
      job_id = job_id;
      success = success cancelled s;
      processed = s.processed;
      failed = s.failed;
      error_message = detail cancelled s;
    })
