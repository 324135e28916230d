-- ===== src/App/Execution/Run/Tests.antt =====
-- The theorems of a run at a run over one file, and one that is cancelled.
use tidyflow.Domain.Options.{default_options, default_scripts}
use tidyflow.App.Files.{Files, same_path}
use tidyflow.App.Files.Samples.{kind_host, note, disk, taken}
use tidyflow.App.Rollback.{Progress, revert_all}
use tidyflow.App.Execution.Run.Live.{AllGone}
use tidyflow.App.Execution.Run.Rest.{
  run_job_files, run_job_files-keeps, run_job_files-taken_back, run_job_files-undone,
}
use tidyflow.App.Execution.Run.Counts.{whole_run}
use tidyflow.App.Execution.Run.{RunState}
use tidyflow.Base.Text.{Text, codes, text_eq}
use tidyflow.Core.Queue.State.{ExecutionCompleted}
use tidyflow.Base.{Option, none, some, ◌≡◌, ◌∷◌, [], true, false, refl}
use tidyflow.Domain.Job.{Job, new_job, rename}

abbrev job : Job
job = record (new_job 7 (codes "job") (codes "/in") (codes "/out")) { conflict = rename }

abbrev finished : RunState
finished =
    whole_run kind_host (λ p. some p) (λ log entry. none) job (codes "in" ∷ []) (codes "out" ∷ [])
      (λ i. false) (note ∷ []) disk

abbrev completed : ExecutionCompleted
completed = record {
  execution_id = 100;
  job_id = 7;
  success = true;
  processed = 1;
  failed = 0;
  error_message = none;
}

-- A packing that would leave nothing.
abbrev loses_all : Files → Option Text × Files
loses_all fs = (none, λ p. none)

abbrev ended : RunState
ended =
    run_job_files kind_host (λ p. some p) (λ log entry. none) job (codes "in" ∷ [])
      (codes "out" ∷ []) loses_all loses_all (λ i. false) false (note ∷ []) disk

run_job_files-keeps_example : ended.files taken ≡ disk taken
unfolding new_job default_options default_scripts
run_job_files-keeps_example =
    run_job_files-keeps kind_host (λ p. some p) (λ log entry. none) job (codes "in" ∷ [])
      (codes "out" ∷ []) loses_all loses_all refl refl (λ i. false) false (note ∷ []) disk refl
      (λ e. cc) taken (unfold disk same_path text_eq in refl)

run_job_files-taken_back_example :
    let start : Progress = record { files = ended.files; reverted = 0; skipped = 0 } in
    (revert_all kind_host ended.rollback_items start).files taken ≡ disk taken
unfolding new_job default_options default_scripts
run_job_files-taken_back_example =
    run_job_files-taken_back kind_host (λ p. some p) (λ log entry. none) job (codes "in" ∷ [])
      (codes "out" ∷ []) loses_all loses_all refl refl (λ i. false) false (note ∷ []) disk refl
      (λ e. cc) taken (unfold disk same_path text_eq in refl)

run_job_files-undone_example :
    let start : Progress = record { files = ended.files; reverted = 0; skipped = 0 } in
    let t = revert_all kind_host ended.rollback_items start in
    (t.reverted ≡ ended.processed) × AllGone t.files ended.rollback_items
unfolding new_job default_options default_scripts
run_job_files-undone_example =
    run_job_files-undone kind_host (λ p. some p) (λ log entry. none) job (codes "in" ∷ [])
      (codes "out" ∷ []) loses_all loses_all refl refl (λ i. false) false (note ∷ []) disk refl
      (λ e. cc) (λ p. refl)
