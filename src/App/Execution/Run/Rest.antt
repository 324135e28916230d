-- ===== src/App/Execution/Run/Rest.antt =====
-- What `run_job` does with the files after its loop and before it saves its records: the post-script and the
-- packing of the target, each of which is a parameter and gives why it warned, or failed, and the files.
use tidyflow.App.Execution.Run.Counts.{whole_run}
use tidyflow.App.Execution.Run.Live.{AllGone}
use tidyflow.App.Execution.Run.Preserved.{whole_run-keeps, whole_run-taken_back}
use tidyflow.App.Execution.Run.Undone.{whole_run-undone}
use tidyflow.App.Execution.Run.{RunState, entry_of, log_entry}
use tidyflow.App.Files.{Host, FilePath, Files, exists, op_remove}
use tidyflow.App.Rollback.{Progress, revert_all}
use tidyflow.Base.Text.{Text, msg}
use tidyflow.Base.{
  ℕ, ◌≡◌, ◌≢◌, Option, some, none, true, false, List, ◌∷◌, ◌++◌, Bool, if◌then◌else◌, is_some, not,
  ◌&&◌, ◌==◌, sym, subst, arith,
}
use tidyflow.Domain.Job.{Job, copy, overwrite}
use tidyflow.Domain.Rollback.{NewAuditEntry}
use tidyflow.Domain.Rollback

module _ (host : Host) (canonicalize : Text → Option Text)
    (append : List (NewAuditEntry FilePath) → NewAuditEntry FilePath → Option Text) (job : Job)
    (source target_dir : FilePath) (post_script pack : Files → Option Text × Files) where
  warn : Option Text → RunState → RunState
  unfolding entry_of log_entry
  warn none s = s
  warn (some warning) s =
      log_entry host canonicalize append job source target_dir
        (entry_of host canonicalize append job source target_dir Rollback.failed source target_dir 0
          (some warning))
        (record s { recent_log = (msg "WARN post-script: " ++ warning) ∷ s.recent_log })

  after_script : RunState → RunState
  unfolding warn
  after_script s =
      if is_some job.scripts.post_script
      then warn (post_script s.files).0 (record s { files = (post_script s.files).1 })
      else s

  pack_output : (cancelled : Bool) → RunState → RunState
  pack_output cancelled s =
      if job.options.encrypt_output && not cancelled && s.failed == 0
      then record s { files = (pack s.files).1; error = (pack s.files).0 }
      else s

  -- Nothing runs after an early return.
  finish_run : (cancelled : Bool) → RunState → RunState
  unfolding after_script pack_output
  finish_run cancelled s =
      if is_some s.error
      then s
      else let t = after_script s in if is_some t.error then t else pack_output cancelled t

  -- From the collected files on, where `at_end` is the state of the token at the packing.
  pub run_job_files : (ℕ → Bool) → (at_end : Bool) → List FilePath → Files → RunState
  unfolding finish_run
  run_job_files cancelled at_end files fs =
      finish_run at_end
        (whole_run host canonicalize append job source target_dir cancelled files fs)

  module _ (no_script : job.scripts.post_script ≡ none) (plain : job.options.encrypt_output ≡ false)
      (cancelled : ℕ → Bool) (at_end : Bool) (files : List FilePath) (fs : Files) where
    finish_run-plain : (s : RunState) → finish_run at_end s ≡ s
    unfolding finish_run after_script pack_output
    finish_run-plain s = ground (arith, no_script, plain)

    run_job_files-plain :
        run_job_files cancelled at_end files fs
        ≡ whole_run host canonicalize append job source target_dir cancelled files fs
    unfolding run_job_files
    run_job_files-plain =
        finish_run-plain
          (whole_run host canonicalize append job source target_dir cancelled files fs)

    module _ (mode : job.mode ≡ copy) (gentle : job.conflict ≢ overwrite) where
      -- A run without a post-script and without packing, of a job that copies and does not overwrite,
      -- leaves every file and directory that was there when its files were collected as it was, however
      -- its loop ends.
      pub run_job_files-keeps :
          (q : FilePath)
          → exists q fs ≡ true
          → (run_job_files cancelled at_end files fs).files q ≡ fs q
      run_job_files-keeps q there =
          subst (λ s. s.files q ≡ fs q) (sym run_job_files-plain)
            (whole_run-keeps host canonicalize append job source target_dir mode gentle q fs there
              cancelled files)

      -- Reverting all rollback items of a run without a post-script and without packing, of a job that
      -- copies and does not overwrite, right after it leaves every file and directory that was there when
      -- its files were collected as it was then.
      pub run_job_files-taken_back :
          (q : FilePath)
          → exists q fs ≡ true
          → let s = run_job_files cancelled at_end files fs in
            let start : Progress = record { files = s.files; reverted = 0; skipped = 0 } in
            (revert_all host s.rollback_items start).files q ≡ fs q
      run_job_files-taken_back q there =
          subst
            (λ s.
              (revert_all host s.rollback_items
                  (record { files = s.files; reverted = 0; skipped = 0 })).files
                q
              ≡ fs q)
            (sym run_job_files-plain)
            (whole_run-taken_back host canonicalize append job source target_dir cancelled files fs
              q mode gentle there)

      -- Where the host lets every file be removed, reverting all rollback items of a run without a
      -- post-script and without packing, of a job that copies and does not overwrite, right after it
      -- reverts as many items as the run processed files, and nothing is left at the target of any item
      -- that was not ignored.
      pub run_job_files-undone :
          ((p : FilePath) → host.denies op_remove p ≡ false)
          → let s = run_job_files cancelled at_end files fs in
            let start : Progress = record { files = s.files; reverted = 0; skipped = 0 } in
            let t = revert_all host s.rollback_items start in
            (t.reverted ≡ s.processed) × AllGone t.files s.rollback_items
      run_job_files-undone allowed =
          subst
            (λ s.
              let t =
                revert_all host s.rollback_items
                  (record { files = s.files; reverted = 0; skipped = 0 }) in
              (t.reverted ≡ s.processed) × AllGone t.files s.rollback_items)
            (sym run_job_files-plain)
            (whole_run-undone host canonicalize append job source target_dir cancelled files fs mode
              gentle allowed)
