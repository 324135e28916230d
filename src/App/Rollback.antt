-- ===== src/App/Rollback.antt =====
-- crates/autoflow-application/src/rollback.rs, over the table of
-- crates/autoflow-infrastructure/src/rollback.rs. The database answers every query.
pub mod Items
pub mod Store
mod Tests
use tidyflow.Domain.Counter.{to_string}
use tidyflow.Base.Text.{Text, msg}
use tidyflow.Domain.Error.{DomainError, validation}
use tidyflow.App.Files.{
  Files, Host, FilePath, exists, file_hash, rename_path, remove_dir_all, remove_file,
}
use tidyflow.Base.{
  ℕ, List, ◌+◌, Option, Result, Bool, ◌∷◌, none, ◌==◌, ok, [], true, ◌||◌, if◌then◌else◌, err,
  is_some_and, ◌&&◌, some, false, not, is_some, ◌++◌,
}
use tidyflow.Domain.Rollback.{
  moved, RollbackManifest, RollbackItem, NewAuditEntry, AuditStatus, RollbackResult, rolled_back,
  copied,
}

abbrev pub Item : Type 0
Item = RollbackItem FilePath

abbrev pub Manifest : Type 0
Manifest = RollbackManifest FilePath

-- The files and the two counters of the loop.
pub record Progress : Type 0 where
  pub files : Files
  pub reverted : ℕ
  pub skipped : ℕ

-- A row of `rollback_manifests`; the payload keeps the manifest as it was saved.
pub record Row : Type 0 where
  pub payload : Manifest
  pub rolled_back_at : Option ℕ

abbrev succeeded {ℓ} : {A : Type ℓ} → Result Text A → Bool
succeeded (ok a) = true
succeeded (err e) = false

-- Counts an operation by its result.
settle : Progress → Result Text (Unit {0}) × Files → Progress
settle s (ok u, fs) = record s { files = fs; reverted = s.reverted + 1 }
settle s (err e, fs) = record s { files = fs; skipped = s.skipped + 1 }

skip_item : Progress → Progress
skip_item s = record s { skipped = s.skipped + 1 }

hash_is : Result Text ℕ → ℕ → Bool
hash_is (ok h) expected = h == expected
hash_is (err e) expected = false

module _ (host : Host) where
  -- The recorded hash, if there is one, is that of the target.
  unfoldable pub hash_matches : Item → Files → Bool
  unfolding hash_is
  hash_matches item fs = elim item.target_hash [
    | none ↦ true
    | some expected ↦ hash_is (file_hash host item.target_path fs) expected
  ]

  revert : AuditStatus → Item → Progress → Progress
  unfolding settle skip_item
  revert moved item s =
      if exists item.target_path s.files && not (exists item.source_path s.files)
      then if not (hash_matches item s.files)
        then skip_item s
        else settle s (rename_path host item.target_path item.source_path s.files)
      else skip_item s
  revert copied item s =
      if exists item.target_path s.files
      then if not (hash_matches item s.files)
        then skip_item s
        else if item.is_directory
        then settle s (remove_dir_all host item.target_path s.files)
        else settle s (remove_file host item.target_path s.files)
      else skip_item s
  revert _ item s = skip_item s

  unfoldable pub revert_item : Item → Progress → Progress
  unfolding revert hash_matches
  revert_item item s = revert item.status item s

  -- The loop over `manifest.items.iter().rev()`.
  unfoldable pub revert_all : List Item → Progress → Progress
  unfolding revert_item
  revert_all [] s = s
  revert_all (item ∷ rest) s = revert_item item (revert_all rest s)

-- The newest row is the head. `WHERE (job_id = ? OR blueprint_id = ?) AND rolled_back_at IS NULL`.
abbrev concerns : ℕ → Manifest → Bool
concerns id m = m.job_id == id || is_some_and (λ b. b == id) m.blueprint_id

unfoldable pub latest_for : ℕ → List Row → Option Manifest
latest_for id [] = none
latest_for id (r ∷ rows) =
    let older = latest_for id rows in
    if concerns id r.payload && not (is_some r.rolled_back_at) then some r.payload else older

unfoldable pub save_manifest : Manifest → List Row → List Row
save_manifest m rows = record { payload = m; rolled_back_at = m.rolled_back_at } ∷ rows

unfoldable pub mark_rolled_back : ℕ → ℕ → List Row → List Row
mark_rolled_back id now [] = []
mark_rolled_back id now (r ∷ rows) =
    (if r.payload.id == id then record r { rolled_back_at = some now } else r)
    ∷ mark_rolled_back id now rows

pub record World : Type 0 where
  pub files : Files
  pub rows : List Row
  pub audit : List (NewAuditEntry Text)

module _ (host : Host) where
  -- What `rollback_job` and `rollback_blueprint` share: they differ in the entry that they append.
  roll_back :
      (Manifest → Progress → NewAuditEntry Text)
      → ℕ
      → ℕ
      → World
      → Result DomainError RollbackResult × World
  roll_back entry id now w = elim (latest_for id w.rows) [
    | none ↦ (err (validation (msg "no rollback manifest available")), w)
    | some m ↦
        if is_some m.rolled_back_at
        then (err (validation (msg "rollback already executed")), w)
        else let start : Progress = record { files = w.files; reverted = 0; skipped = 0 } in
          let s = revert_all host m.items start in
          (
            ok (record { success = true; reverted_count = s.reverted; skipped_count = s.skipped }),
            record {
              files = s.files;
              rows = mark_rolled_back m.id now w.rows;
              audit = entry m s ∷ w.audit;
            },
          )
  ]

  rolled_back_entry : Option ℕ → Option ℕ → Text → Manifest → Progress → NewAuditEntry Text
  rolled_back_entry job_id blueprint_id source m s =
      let execution = host.show_uuid m.execution_id in
      record {
        job_id = job_id;
        blueprint_id = blueprint_id;
        job_name = msg "Rollback";
        source_path = source;
        target_path = msg "execution://" ++ execution;
        status = rolled_back;
        file_size = 0;
        details = some (
            msg "reverted="
            ++ to_string s.reverted
            ++ msg ", skipped="
            ++ to_string s.skipped
            ++ msg ", execution="
            ++ execution);
      }

  unfoldable pub rollback_job : ℕ → ℕ → World → Result DomainError RollbackResult × World
  unfolding roll_back rolled_back_entry
  rollback_job job_id now w =
      roll_back
        (λ m.
          rolled_back_entry (some job_id) m.blueprint_id (msg "job://" ++ host.show_uuid job_id) m)
        job_id now w

  unfoldable pub rollback_blueprint : ℕ → ℕ → World → Result DomainError RollbackResult × World
  unfolding roll_back rolled_back_entry
  rollback_blueprint blueprint_id now w =
      roll_back
        (λ m.
          rolled_back_entry none (some blueprint_id)
            (msg "blueprint://" ++ host.show_uuid blueprint_id) m)
        blueprint_id now w
