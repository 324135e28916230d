-- ===== src/App/Rollback/Store.antt =====
-- About the whole of `rollback_job`, and the table of manifests.
use tidyflow.App.Rollback.Items.{revert_all-counts}
use tidyflow.Base.Text.{msg}
use tidyflow.Domain.Error.{validation}
use tidyflow.Domain.Rollback.{RollbackResult}
use tidyflow.App.Files.{Host}
use tidyflow.App.Rollback.{
  latest_for, rollback_job, mark_rolled_back, World, Manifest, Row, Progress, revert_all,
}
use tidyflow.Base.{
  ℕ, List, ◌≡◌, none, some, err, ◌==◌, false, ok, ◌∷◌, ◌+◌, arith, length, [], suc, true,
}

-- A manifest that is marked is not found again.
latest_for-mark :
    (id mid now : ℕ) (rows : List Row) (m : Manifest)
    → latest_for id (mark_rolled_back mid now rows) ≡ some m
    → (m.id == mid) ≡ false
unfolding latest_for mark_rolled_back
latest_for-mark id mid now [] m e = cc
latest_for-mark id mid now (r ∷ rows) m e = ground (arith, latest_for-mark id mid now rows m)

-- A rollback of a job with a manifest that was not rolled back succeeds, counts each item of the
-- manifest once, and is recorded; the manifest is not found for another rollback, of whichever job.
pub rollback_job-once :
    (host : Host) (job now : ℕ) (w : World) (m : Manifest)
    → latest_for job w.rows ≡ some m
    → m.rolled_back_at ≡ none
    → (r : RollbackResult) × ((rollback_job host job now w).0 ≡ ok r)
      × (r.reverted_count + r.skipped_count ≡ length m.items)
      × (length (rollback_job host job now w).1.audit ≡ suc (length w.audit))
      × ((other : ℕ) (m' : Manifest)
          → latest_for other (rollback_job host job now w).1.rows ≡ some m'
          → (m'.id == m.id) ≡ false)
unfolding rollback_job
rollback_job-once host job now w m found fresh =
    let start : Progress = record { files = w.files; reverted = 0; skipped = 0 } in
    let s = revert_all host m.items start in
    let rows : (rollback_job host job now w).1.rows ≡ mark_rolled_back m.id now w.rows =
      ground (arith, found, fresh) in
    (
      record { success = true; reverted_count = s.reverted; skipped_count = s.skipped },
      ground (arith, found, fresh),
      omega (arith, revert_all-counts host m.items start),
      ground (arith, found, fresh),
      λ other m' e. latest_for-mark other m.id now w.rows m' (rw rows at e),
    )

-- With no manifest left, a rollback fails and changes nothing.
pub rollback_job-missing :
    (host : Host) (job now : ℕ) (w : World)
    → latest_for job w.rows ≡ none
    → rollback_job host job now w ≡ (err (validation (msg "no rollback manifest available")), w)
unfolding rollback_job
rollback_job-missing host job now w e = ground (arith, e)
