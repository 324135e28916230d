-- ===== src/App/Execution/Run/Undone.antt =====
-- About the copies that the loop of a run makes without overwriting, and the rollback of its items.
use tidyflow.App.Execution.Run.Loop.{run_files-ind}
use tidyflow.Base.Text.{Text}
use tidyflow.App.Execution.Transfer.{process_file}
use tidyflow.App.Execution.Transfer.Preserved.{process_file-keeps, free-same_path}
use tidyflow.App.Execution.Transfer.Outcome.{process_file-eq-ok}
use tidyflow.App.Execution.Run.Counts.{whole_run}
use tidyflow.App.Execution.Run.Live.{
  AllLive, copies, copies-append, AllLive-append, AllLive-keeps, hash_matches-hash_of, AllGone,
  revert_all-AllGone,
}
use tidyflow.App.Execution.Run.{
  RunState, count_ok, log_entry, stop_if_asked, on_ok, on_failed, settle_file, on_err, start_run,
  hash_of,
}
use tidyflow.App.Files.{Host, FilePath, Files, exists, is_dir, op_remove}
use tidyflow.App.Rollback.{Item, revert_all, Progress}
use tidyflow.Base.{
  none, ℕ, ◌≡◌, ◌≢◌, Option, true, false, List, arith, refl, Bool, Result, ok, inr, inl, err,
}
use tidyflow.Domain.Job.{Job, copy, overwrite}
use tidyflow.Domain.Rollback.{NewAuditEntry, AuditStatus}

-- What the loop keeps about its items.
pub record IsUndoable (host : Host) (s : RunState) : Type 0 where
  pub live : AllLive host s.files s.rollback_items
  pub number : copies s.rollback_items ≡ s.processed

module _ (host : Host) (canonicalize : Text → Option Text)
    (append : List (NewAuditEntry FilePath) → NewAuditEntry FilePath → Option Text) (job : Job)
    (source target_dir : FilePath) (mode : job.mode ≡ copy)
    (gentle : job.conflict ≢ overwrite) where
  settle_file-IsUndoable :
      (file : FilePath) (r : Result Text (FilePath × AuditStatus)) (fs' : Files) (s : RunState)
      → process_file host job file target_dir source s.files ≡ (r, fs')
      → s.error ≡ none
      → IsUndoable host s
      → IsUndoable host (
          settle_file host canonicalize append job source target_dir file r
            (record s { files = fs' }))
  unfolding settle_file on_ok on_err on_failed count_ok log_entry stop_if_asked copies
  settle_file-IsUndoable file (err m) fs' s e clean h =
      let kept = λ (q : FilePath) (there : exists q s.files ≡ true).
        process_file-keeps host q job file target_dir source s.files mode gentle there in
      record {
        live =
            AllLive-keeps host s.files fs' s.rollback_items (λ q there. rw e at (kept q there))
              h.live;
        number = h.number;
      }
  settle_file-IsUndoable file (ok (r, st)) fs' s e clean h =
      let kept = λ (q : FilePath) (there : exists q s.files ≡ true).
        process_file-keeps host q job file target_dir source s.files mode gentle there in
      let outcome =
        process_file-eq-ok host job file target_dir source r st s.files fs' mode gentle e in
      let item : Item = record {
        source_path = file;
        target_path = r;
        mode = job.mode;
        status = st;
        target_hash = hash_of host canonicalize append job source target_dir st r fs';
        is_directory = is_dir (fs' file);
      } in
      record {
        live =
            AllLive-append host s.files fs' s.rollback_items item
              (λ q there. (
                rw e at (kept q there),
                elim outcome [
                  | inl left_out ↦ inl left_out
                  | inr (free, (done, plain, arrived)) ↦
                      inr (done, free-same_path r q s.files free there, plain)
                ],
              ))
              h.live
              (elim outcome [
                | inl left_out ↦ inl left_out
                | inr (free, (done, plain, arrived)) ↦ inr (record {
                  status = done;
                  there = arrived;
                  plain = plain;
                  unchanged =
                      hash_matches-hash_of host canonicalize append job source target_dir item fs'
                        (rw done refl);
                })
              ]);
        number = ground (arith, copies-append s.rollback_items item, h.number);
      }

  on_failed-IsUndoable :
      (file : FilePath) (s : RunState)
      → s.error ≡ none
      → IsUndoable host s
      → IsUndoable host (on_failed host canonicalize append job source target_dir file s)
  unfolding on_failed
  on_failed-IsUndoable file s clean h = record { live = h.live; number = h.number }

  whole_run-IsUndoable :
      (cancelled : ℕ → Bool) (files : List FilePath) (fs : Files)
      → IsUndoable host
          (whole_run host canonicalize append job source target_dir cancelled files fs)
  unfolding start_run AllLive copies
  whole_run-IsUndoable cancelled files fs =
      run_files-ind host canonicalize append job source target_dir (IsUndoable host)
        on_failed-IsUndoable settle_file-IsUndoable cancelled 0 files (start_run fs) refl
        (record { live = tt; number = refl })

-- Where the host lets every file be removed, reverting all rollback items of a loop that copied
-- without overwriting, right after it, reverts as many items as it processed files, and nothing is left
-- at the target of any item that was not ignored.
pub whole_run-undone :
    (host : Host) (canonicalize : Text → Option Text)
    (append : List (NewAuditEntry FilePath) → NewAuditEntry FilePath → Option Text) (job : Job)
    (source target_dir : FilePath) (cancelled : ℕ → Bool) (files : List FilePath) (fs : Files)
    → job.mode ≡ copy
    → job.conflict ≢ overwrite
    → ((p : FilePath) → host.denies op_remove p ≡ false)
    → let s = whole_run host canonicalize append job source target_dir cancelled files fs in
      let start : Progress = record { files = s.files; reverted = 0; skipped = 0 } in
      let t = revert_all host s.rollback_items start in
      (t.reverted ≡ s.processed) × AllGone t.files s.rollback_items
whole_run-undone host canonicalize append job source target_dir cancelled files fs mode gentle
      allowed =
    let s = whole_run host canonicalize append job source target_dir cancelled files fs in
    let start : Progress = record { files = s.files; reverted = 0; skipped = 0 } in
    let h =
      whole_run-IsUndoable host canonicalize append job source target_dir mode gentle cancelled
        files fs in
    let (gone, number) = revert_all-AllGone host s.rollback_items start allowed h.live in
    (omega (arith, number, h.number), gone)
