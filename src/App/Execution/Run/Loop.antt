-- ===== src/App/Execution/Run/Loop.antt =====
-- Induction over the loop of `run_job`.
use tidyflow.Base.Text.{Text}
use tidyflow.Domain.PathPolicy.{is_path_under_root, normalize_path}
use tidyflow.App.Execution.Transfer.{process_file}
use tidyflow.App.Execution.Run.{RunState, run_files, run_file, on_failed, settle_file}
use tidyflow.App.Files.{Host, FilePath, Files, display}
use tidyflow.Base.{
  none, false, arith, ◌||◌, is_some, ℕ, ◌+◌, ◌≡◌, Option, List, ◌∷◌, [], refl, Bool, Result,
  Bool-cases, inr, inl,
}
use tidyflow.Domain.Job.{Job}
use tidyflow.Domain.Rollback.{NewAuditEntry, AuditStatus}

error-none : (s : RunState) → (s.aborted || is_some s.error) ≡ false → s.error ≡ none
error-none s on = ground arith

module _ (host : Host) (canonicalize : Text → Option Text)
    (append : List (NewAuditEntry FilePath) → NewAuditEntry FilePath → Option Text) (job : Job)
    (source target_dir : FilePath) (Keeps : RunState → Type 0)
    (outside : (file : FilePath) (s : RunState)
      → s.error ≡ none
      → Keeps s
      → Keeps (on_failed host canonicalize append job source target_dir file s))
    (settled : (file : FilePath) (r : Result Text (FilePath × AuditStatus)) (fs' : Files)
        (s : RunState)
      → process_file host job file target_dir source s.files ≡ (r, fs')
      → s.error ≡ none
      → Keeps s
      → Keeps (
          settle_file host canonicalize append job source target_dir file r
            (record s { files = fs' }))) where
  run_file-ind :
      (file : FilePath) (s : RunState)
      → s.error ≡ none
      → Keeps s
      → Keeps (run_file host canonicalize append job source target_dir file s)
  unfolding run_file
  run_file-ind file s clean h =
      let under =
        is_path_under_root canonicalize (normalize_path canonicalize (display file))
          (normalize_path canonicalize (display source)) in
      let r = process_file host job file target_dir source s.files in
      elim (Bool-cases under) [
        | inr out ↦ rw (out, run_file) (outside file s clean h)
        | inl inside ↦ rw (inside, run_file) (settled file r.0 r.1 s refl clean h)
      ]

  pub run_files-ind :
      (cancelled : ℕ → Bool) (i : ℕ) (files : List FilePath) (s : RunState)
      → s.error ≡ none
      → Keeps s
      → Keeps (run_files host canonicalize append job source target_dir cancelled i files s)
  unfolding run_files
  run_files-ind cancelled i [] s clean h = h
  run_files-ind cancelled i (file ∷ rest) s clean h =
      let run = run_files host canonicalize append job source target_dir cancelled in
      let t = run_file host canonicalize append job source target_dir file s in
      let one : Keeps t = run_file-ind file s clean h in
      elim (Bool-cases (cancelled i)) [
        | inl stop ↦ let end : run i (file ∷ rest) s ≡ s = rw (stop, run_files) refl in rw end h
        | inr go ↦ elim (Bool-cases (t.aborted || is_some t.error)) [
          | inl stop ↦
              let end : run i (file ∷ rest) s ≡ t =
                rw (go, run_files) (rw (stop, run_files) refl) in
              rw end one
          | inr on ↦
              let end : run i (file ∷ rest) s ≡ run (i + 1) rest t =
                rw (go, run_files) (rw (on, run_files) refl) in
              rw end (run_files-ind cancelled (i + 1) rest t (error-none t on) one)
        ]
      ]
