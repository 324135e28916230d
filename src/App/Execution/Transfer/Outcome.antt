-- ===== src/App/Execution/Transfer/Outcome.antt =====
-- About the results of `process_file`, for a job that copies and does not overwrite.
use tidyflow.Base.Text.{Text}
use tidyflow.App.Files.Laws.{same_path_refl}
use tidyflow.App.Execution.Transfer.{
  copy_to, deliver, make_parent, process_file, is_synced, deliver_unless, target_path,
  resolve_target,
}
use tidyflow.App.Execution.Transfer.Targets.{resolve_target-free}
use tidyflow.App.Execution.Transfer.Preserved.{verify_copy-files}
use tidyflow.App.Execution.Transfer.Verified.{is_synced-files}
use tidyflow.App.Files.{
  Host, FilePath, Files, is_dir, is_file, copy_file, file_name, exists, set_node,
}
use tidyflow.Base.{
  some, ◌≡◌, ◌≢◌, true, ok, Result-cases, inr, arith, inl, Option, none, Bool, false, ◌⊎◌, ap, sym,
}
use tidyflow.Domain.Job.{Job, copy, overwrite}
use tidyflow.Domain.Rollback.{AuditStatus, copied, ignored}

-- What is known of the copy of the file `p` to `r`.
abbrev pub Copied : FilePath → FilePath → AuditStatus → Files → Type 0
Copied p r st fs = (st ≡ copied) × (is_dir (fs p) ≡ false) × (is_file (fs r) ≡ true)

-- Either the file was left out, or it is now at a target that was free.
abbrev pub IsOutcome : FilePath → FilePath → AuditStatus → Files → Files → Type 0
IsOutcome p r st fs fs' = (st ≡ ignored) ⊎ ((exists r fs ≡ false) × Copied p r st fs')

module _ (host : Host) where
  copy_file-plain :
      (p r : FilePath) (fs : Files)
      → (copy_file host p r fs).0 ≡ ok tt
      → (is_dir ((copy_file host p r fs).1 p) ≡ false)
        × (is_file ((copy_file host p r fs).1 r) ≡ true)
  unfolding copy_file set_node is_dir is_file
  copy_file-plain p r fs ran = (ground arith, ground (arith, same_path_refl r))

  copy_to-eq-ok :
      (job : Job) (p r r' : FilePath) (st : AuditStatus) (fs fs' : Files)
      → copy_to host job p r fs ≡ (ok (r', st), fs')
      → (r' ≡ r) × Copied p r st fs'
  unfolding copy_to
  copy_to-eq-ok job p r r' st fs fs' e =
      let fs1 = (copy_file host p r fs).1 in
      let kept = verify_copy-files host p r fs1 in
      elim (Result-cases (copy_file host p r fs).0) [
        | inr (x, bad) ↦ ground (arith, bad)
        | inl (u, ran) ↦
            let (plain, there) = copy_file-plain p r fs ran in
            ground (arith, ran, kept, plain, there)
      ]

  deliver-eq-ok :
      (job : Job) (p target r : FilePath) (resolved : Option FilePath) (st : AuditStatus)
      (fs fs' : Files)
      → job.mode ≡ copy
      → ((q : FilePath) → resolved ≡ some q → exists q fs ≡ false)
      → deliver host job p target resolved fs ≡ (ok (r, st), fs')
      → IsOutcome p r st fs fs'
  unfolding deliver
  deliver-eq-ok job p target r none st fs fs' mode free e = inl (ground arith)
  deliver-eq-ok job p target r (some q) st fs fs' mode free e =
      let fs1 = (make_parent host q fs).1 in
      elim (Result-cases (make_parent host q fs).0) [
        | inr (x, bad) ↦ ground (arith, bad)
        | inl (u, made) ↦
            let (same, copy_done) =
              copy_to-eq-ok job p q r st fs1 fs' (ground (arith, mode, made)) in
            inr (free r (ap some (sym same)), rw same copy_done)
      ]

  deliver_unless-eq-ok :
      (synced : Bool) (name : Option Text) (job : Job) (p dir root target r : FilePath)
      (st : AuditStatus) (fs fs' : Files)
      → job.mode ≡ copy
      → job.conflict ≢ overwrite
      → deliver_unless host synced job p name dir root target fs ≡ (ok (r, st), fs')
      → IsOutcome p r st fs fs'
  unfolding deliver_unless
  deliver_unless-eq-ok true name job p dir root target r st fs fs' mode gentle e =
      inl (ground arith)
  deliver_unless-eq-ok false none job p dir root target r st fs fs' mode gentle e = ground arith
  deliver_unless-eq-ok false (some given) job p dir root target r st fs fs' mode gentle e =
      elim (Result-cases (resolve_target dir given job.conflict root p fs)) [
        | inr (x, bad) ↦ ground (arith, bad)
        | inl (resolved, found) ↦
            deliver-eq-ok job p target r resolved st fs fs' mode
              (λ q chosen.
                resolve_target-free dir given job.conflict root p q fs gentle (rw chosen at found))
              (ground (arith, found))
      ]

  pub process_file-eq-ok :
      (job : Job) (p dir root r : FilePath) (st : AuditStatus) (fs fs' : Files)
      → job.mode ≡ copy
      → job.conflict ≢ overwrite
      → process_file host job p dir root fs ≡ (ok (r, st), fs')
      → IsOutcome p r st fs fs'
  unfolding process_file
  process_file-eq-ok job p dir root r st fs fs' mode gentle e =
      elim (Result-cases (target_path root p (is_file (fs root)) (file_name p) dir)) [
        | inr (x, bad) ↦ ground (arith, bad)
        | inl (target, aimed) ↦ elim (Result-cases (is_synced host job p target fs).0) [
          | inr (x, bad) ↦ ground (arith, aimed, bad)
          | inl (synced, compared) ↦
              deliver_unless-eq-ok synced (file_name p) job p dir root target r st fs fs' mode
                gentle (ground (arith, aimed, compared, is_synced-files host job p target fs))
        ]
      ]
