-- ===== src/Domain/Rollback.antt =====
-- crates/autoflow-domain/src/rollback.rs and the statuses and new entries of audit.rs. Durations are
-- left out of an entry: floats.
use tidyflow.Base.Text.{Text}
use tidyflow.Domain.Job.{JobMode}
use tidyflow.Base.{ℕ, Option, Bool, List, not, some, none, is_some, ◌&&◌, is_empty}

pub data AuditStatus : Type 0 where
  copied moved ignored failed organized rolled_back : AuditStatus

pub record NewAuditEntry (P : Type 0) : Type 0 where
  pub job_id : Option ℕ
  pub blueprint_id : Option ℕ
  pub job_name : Text
  pub source_path : P
  pub target_path : P
  pub status : AuditStatus
  pub file_size : ℕ
  pub details : Option Text

-- `P` is the type of paths, and hashes are numbers.
pub record RollbackItem (P : Type 0) : Type 0 where
  pub source_path : P
  pub target_path : P
  pub mode : JobMode
  pub status : AuditStatus
  pub target_hash : Option ℕ
  pub is_directory : Bool

pub record RollbackManifest (P : Type 0) : Type 0 where
  pub id : ℕ
  pub job_id : ℕ
  pub blueprint_id : Option ℕ
  pub execution_id : ℕ
  pub created_at : ℕ
  pub rolled_back_at : Option ℕ
  pub items : List (RollbackItem P)

pub record RollbackResult : Type 0 where
  pub success : Bool
  pub reverted_count : ℕ
  pub skipped_count : ℕ

module _ {P : Type 0} where
  -- The constructors of a manifest take the new identifier and the time.
  unfoldable pub new_manifest : ℕ → ℕ → ℕ → ℕ → List (RollbackItem P) → RollbackManifest P
  new_manifest id now job_id execution_id items = record {
    id = id;
    job_id = job_id;
    blueprint_id = none;
    execution_id = execution_id;
    created_at = now;
    rolled_back_at = none;
    items = items;
  }

  unfoldable pub new_for_blueprint : ℕ → ℕ → ℕ → ℕ → List (RollbackItem P) → RollbackManifest P
  new_for_blueprint id now blueprint_id execution_id items = record {
    id = id;
    job_id = blueprint_id;
    blueprint_id = some blueprint_id;
    execution_id = execution_id;
    created_at = now;
    rolled_back_at = none;
    items = items;
  }

  unfoldable pub rollback_available : RollbackManifest P → Bool
  rollback_available m = not (is_some m.rolled_back_at) && not (is_empty m.items)
