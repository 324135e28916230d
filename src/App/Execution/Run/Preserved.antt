-- ===== src/App/Execution/Run/Preserved.antt =====
-- About the files that are there before the loop of a job that copies without overwriting: what the loop
-- of `run_job`, and a rollback of its items, does to them.
use tidyflow.App.Execution.Run.Loop.{run_files-ind}
use tidyflow.Base.Text.{Text}
use tidyflow.App.Execution.Transfer.{process_file}
use tidyflow.App.Execution.Transfer.Preserved.{process_file-keeps, free-same_path}
use tidyflow.App.Execution.Transfer.Outcome.{process_file-eq-ok}
use tidyflow.App.Execution.Run.Counts.{whole_run}
use tidyflow.App.Execution.Run.{
  RunState, count_ok, log_entry, stop_if_asked, on_ok, on_failed, settle_file, on_err, start_run,
}
use tidyflow.App.Files.{Host, FilePath, Files, exists, same_path, remove_file, set_node}
use tidyflow.App.Rollback.{Item, revert_all, revert_item, Progress}
use tidyflow.Base.{
  none, ℕ, ◌≡◌, ◌≢◌, Option, true, false, List, arith, ◌∷◌, ◌++◌, [], refl, Bool, Result, ok, inr,
  inl, err, ◌⊎◌, ◌∙◌,
}
use tidyflow.Domain.Job.{Job, copy, overwrite}
use tidyflow.Domain.Rollback.{NewAuditEntry, AuditStatus, copied, ignored}

-- Taking the item back does not touch what is at `q`.
abbrev pub Spares : FilePath → Item → Type 0
Spares q item =
    (item.status ≡ ignored)
    ⊎ ((item.status ≡ copied)
        × (same_path item.target_path q ≡ false)
        × (item.is_directory ≡ false))

unfoldable pub AllSpare : FilePath → List Item → Type 0
AllSpare q [] = Unit {0}
AllSpare q (item ∷ items) = Spares q item × AllSpare q items

pub AllSpare-append :
    (q : FilePath) (items : List Item) (item : Item)
    → AllSpare q items
    → Spares q item
    → AllSpare q (items ++ item ∷ [])
unfolding AllSpare
AllSpare-append q [] item before last = (last, tt)
AllSpare-append q (x ∷ items) item (first, before) last =
    (first, AllSpare-append q items item before last)

-- What the loop keeps about a path that was taken when it began.
pub record IsKept (q : FilePath) (fs : Files) (s : RunState) : Type 0 where
  pub same : s.files q ≡ fs q
  pub spared : AllSpare q s.rollback_items

module _ (host : Host) (canonicalize : Text → Option Text)
    (append : List (NewAuditEntry FilePath) → NewAuditEntry FilePath → Option Text) (job : Job)
    (source target_dir : FilePath) (mode : job.mode ≡ copy) (gentle : job.conflict ≢ overwrite)
    (q : FilePath) (fs : Files) (there : exists q fs ≡ true) where
  settle_file-IsKept :
      (file : FilePath) (r : Result Text (FilePath × AuditStatus)) (fs' : Files) (s : RunState)
      → process_file host job file target_dir source s.files ≡ (r, fs')
      → s.error ≡ none
      → IsKept q fs s
      → IsKept q fs (
          settle_file host canonicalize append job source target_dir file r
            (record s { files = fs' }))
  unfolding settle_file on_ok on_err on_failed count_ok log_entry stop_if_asked
  settle_file-IsKept file (err m) fs' s e clean h =
      let still : exists q s.files ≡ true = rw h.same there in
      let kept = process_file-keeps host q job file target_dir source s.files mode gentle still in
      record { same = ground (arith, kept, e, h.same); spared = h.spared }
  settle_file-IsKept file (ok (r, st)) fs' s e clean h =
      let still : exists q s.files ≡ true = rw h.same there in
      let kept = process_file-keeps host q job file target_dir source s.files mode gentle still in
      let outcome =
        process_file-eq-ok host job file target_dir source r st s.files fs' mode gentle e in
      record {
        same = ground (arith, kept, e, h.same);
        spared = AllSpare-append q s.rollback_items _ h.spared (elim outcome [
          | inl left_out ↦ inl left_out
          | inr (free, (done, plain, arrived)) ↦
              inr (done, free-same_path r q s.files free still, plain)
        ]);
      }

  on_failed-IsKept :
      (file : FilePath) (s : RunState)
      → s.error ≡ none
      → IsKept q fs s
      → IsKept q fs (on_failed host canonicalize append job source target_dir file s)
  unfolding on_failed
  on_failed-IsKept file s clean h = record { same = h.same; spared = h.spared }

  whole_run-IsKept :
      (cancelled : ℕ → Bool) (files : List FilePath)
      → IsKept q fs (whole_run host canonicalize append job source target_dir cancelled files fs)
  unfolding start_run AllSpare
  whole_run-IsKept cancelled files =
      run_files-ind host canonicalize append job source target_dir (IsKept q fs) on_failed-IsKept
        settle_file-IsKept cancelled 0 files (start_run fs) refl
        (record { same = refl; spared = tt })

  -- The loop of a job that copies and does not overwrite leaves every file and directory that was
  -- there before as it was, however it ends.
  pub whole_run-keeps :
      (cancelled : ℕ → Bool) (files : List FilePath)
      → (whole_run host canonicalize append job source target_dir cancelled files fs).files q ≡ fs q
  whole_run-keeps cancelled files = (whole_run-IsKept cancelled files).same

module _ (host : Host) (q : FilePath) where
  revert_item-Spares :
      (item : Item) (s : Progress) → Spares q item → (revert_item host item s).files q ≡ s.files q
  unfolding revert_item remove_file set_node
  revert_item-Spares item s (inl left_out) = ground (arith, left_out)
  revert_item-Spares item s (inr (done, other, plain)) = ground (arith, done, other, plain)

  pub revert_all-AllSpare :
      (items : List Item) (s : Progress)
      → AllSpare q items
      → (revert_all host items s).files q ≡ s.files q
  unfolding revert_all AllSpare
  revert_all-AllSpare [] s spared = refl
  revert_all-AllSpare (item ∷ rest) s (first, spared) =
      revert_item-Spares item (revert_all host rest s) first ∙ revert_all-AllSpare rest s spared

-- Reverting all rollback items of a loop that copied without overwriting, right after it, leaves every
-- file and directory that was there before as it was then.
pub whole_run-taken_back :
    (host : Host) (canonicalize : Text → Option Text)
    (append : List (NewAuditEntry FilePath) → NewAuditEntry FilePath → Option Text) (job : Job)
    (source target_dir : FilePath) (cancelled : ℕ → Bool) (files : List FilePath) (fs : Files)
    (q : FilePath)
    → job.mode ≡ copy
    → job.conflict ≢ overwrite
    → exists q fs ≡ true
    → let s = whole_run host canonicalize append job source target_dir cancelled files fs in
      let start : Progress = record { files = s.files; reverted = 0; skipped = 0 } in
      (revert_all host s.rollback_items start).files q ≡ fs q
whole_run-taken_back host canonicalize append job source target_dir cancelled files fs q mode gentle
      there =
    let h =
      whole_run-IsKept host canonicalize append job source target_dir mode gentle q fs there
        cancelled files in
    let s = whole_run host canonicalize append job source target_dir cancelled files fs in
    let start : Progress = record { files = s.files; reverted = 0; skipped = 0 } in
    revert_all-AllSpare host q s.rollback_items start h.spared ∙ h.same
