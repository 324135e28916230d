-- ===== src/App/Execution/Run/Counts.antt =====
-- About the counters, the log and the rollback items of the loop of `run_job`.
use tidyflow.Base.Text.{Text}
use tidyflow.App.Files.{Host, FilePath, Files}
use tidyflow.App.Execution.Run.{RunState, run_files, start_run}
use tidyflow.Base.{ℕ, ◌+◌, ◌≡◌, Option, length, ◌≤◌, true, ◌<◌, List, Bool}
use tidyflow.Domain.Job.{Job}
use tidyflow.Domain.Rollback.{NewAuditEntry}

-- Each file taken up is counted once; each that did not fail has its rollback item; the log holds ten
-- lines at most; and the run is aborted only after a failure.
pub record IsCounted (taken : ℕ) (s : RunState) : Type 0 where
  pub total : s.processed + s.skipped + s.failed ≡ taken
  pub items : length s.rollback_items ≡ s.processed + s.skipped
  pub log : length s.recent_log ≤ 10
  pub reason : s.aborted ≡ true → 0 < s.failed

module _ (host : Host) (canonicalize : Text → Option Text)
    (append : List (NewAuditEntry FilePath) → NewAuditEntry FilePath → Option Text) (job : Job)
    (source target_dir : FilePath) where
  -- The loop over all files, from a fresh state.
  abbrev pub whole_run : (ℕ → Bool) → List FilePath → Files → RunState
  whole_run cancelled files fs =
      run_files host canonicalize append job source target_dir cancelled 0 files (start_run fs)
