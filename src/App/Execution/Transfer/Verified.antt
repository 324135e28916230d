-- ===== src/App/Execution/Transfer/Verified.antt =====
-- About `verify_copy`, the verification after a copy.
use tidyflow.Base.Text.{Text}
use tidyflow.App.Execution.Transfer.{
  copy_to, verify_copy, deliver, make_parent, process_file, is_synced, deliver_unless, target_path,
  resolve_target,
}
use tidyflow.App.Files.{Host, FilePath, Files, file_hash, copy_file, is_file, file_name}
use tidyflow.Base.{ℕ, some, ◌≡◌, true, ok, Result-cases, inr, arith, inl, Option, none, Bool, false}
use tidyflow.Domain.Job.{Job, copy}
use tidyflow.Domain.Rollback.{AuditStatus, copied}

-- What a verified copy leaves: the hashes of source and target are known and the same.
abbrev pub SameHash : Host → FilePath → FilePath → Files → Type 0
SameHash host p q fs = (h : ℕ) × (file_hash host p fs ≡ ok h) × (file_hash host q fs ≡ ok h)

module _ (host : Host) where
  verify_copy-SameHash :
      (p q : FilePath) (fs : Files)
      → (verify_copy host p q fs).0 ≡ ok tt
      → SameHash host p q fs × ((verify_copy host p q fs).1 ≡ fs)
  unfolding verify_copy
  verify_copy-SameHash p q fs e = elim (Result-cases (file_hash host p fs)) [
    | inr (m, bad) ↦ ground (arith, bad)
    | inl (h, at_p) ↦ elim (Result-cases (file_hash host q fs)) [
      | inr (m, bad) ↦ ground (arith, at_p, bad)
      | inl (k, at_q) ↦ ground (arith, at_p, at_q)
    ]
  ]

  copy_to-SameHash :
      (job : Job) (p q r : FilePath) (st : AuditStatus) (fs fs' : Files)
      → job.options.verify_after_copy ≡ true
      → copy_to host job p q fs ≡ (ok (r, st), fs')
      → (r ≡ q) × SameHash host p q fs'
  unfolding copy_to
  copy_to-SameHash job p q r st fs fs' on e =
      let fs1 = (copy_file host p q fs).1 in
      elim (Result-cases (copy_file host p q fs).0) [
        | inr (x, bad) ↦ ground (arith, bad)
        | inl (u, ran) ↦ elim (Result-cases (verify_copy host p q fs1).0) [
          | inr (x, bad) ↦ ground (arith, on, ran, bad)
          | inl (v, good) ↦
              let (same, kept) = verify_copy-SameHash p q fs1 good in
              let end : fs' ≡ fs1 = ground (arith, on, ran, good, kept) in
              (ground (arith, on, ran, good), rw end same)
        ]
      ]

  deliver-SameHash :
      (job : Job) (p target r : FilePath) (resolved : Option FilePath) (fs fs' : Files)
      → job.mode ≡ copy
      → job.options.verify_after_copy ≡ true
      → deliver host job p target resolved fs ≡ (ok (r, copied), fs')
      → SameHash host p r fs'
  unfolding deliver
  deliver-SameHash job p target r none fs fs' mode on e = ground arith
  deliver-SameHash job p target r (some q) fs fs' mode on e =
      let fs1 = (make_parent host q fs).1 in
      elim (Result-cases (make_parent host q fs).0) [
        | inr (x, bad) ↦ ground (arith, bad)
        | inl (u, made) ↦
            let done : copy_to host job p q fs1 ≡ (ok (r, copied), fs') =
              ground (arith, mode, made) in
            let (same, hashes) = copy_to-SameHash job p q r copied fs1 fs' on done in rw same hashes
      ]

  deliver_unless-SameHash :
      (synced : Bool) (name : Option Text) (job : Job) (p dir root target r : FilePath)
      (fs fs' : Files)
      → job.mode ≡ copy
      → job.options.verify_after_copy ≡ true
      → deliver_unless host synced job p name dir root target fs ≡ (ok (r, copied), fs')
      → SameHash host p r fs'
  unfolding deliver_unless
  deliver_unless-SameHash true name job p dir root target r fs fs' mode on e = ground arith
  deliver_unless-SameHash false none job p dir root target r fs fs' mode on e = ground arith
  deliver_unless-SameHash false (some given) job p dir root target r fs fs' mode on e =
      elim (Result-cases (resolve_target dir given job.conflict root p fs)) [
        | inr (x, bad) ↦ ground (arith, bad)
        | inl (resolved, found) ↦
            deliver-SameHash job p target r resolved fs fs' mode on (ground (arith, found))
      ]

  pub is_synced-files :
      (job : Job) (p target : FilePath) (fs : Files) → (is_synced host job p target fs).1 ≡ fs
  unfolding is_synced
  is_synced-files job p target fs = ground arith

  -- With verification on, a file that is reported as copied has arrived: the hashes of the source and
  -- of the reported target, taken after the copy, are the same, whatever the copy wrote.
  pub process_file-SameHash :
      (job : Job) (p dir root r : FilePath) (fs fs' : Files)
      → job.mode ≡ copy
      → job.options.verify_after_copy ≡ true
      → process_file host job p dir root fs ≡ (ok (r, copied), fs')
      → SameHash host p r fs'
  unfolding process_file
  process_file-SameHash job p dir root r fs fs' mode on e =
      elim (Result-cases (target_path root p (is_file (fs root)) (file_name p) dir)) [
        | inr (x, bad) ↦ ground (arith, bad)
        | inl (target, aimed) ↦ elim (Result-cases (is_synced host job p target fs).0) [
          | inr (x, bad) ↦ ground (arith, aimed, bad)
          | inl (synced, compared) ↦
              deliver_unless-SameHash synced (file_name p) job p dir root target r fs fs' mode on
                (ground (arith, aimed, compared, is_synced-files job p target fs))
        ]
      ]
