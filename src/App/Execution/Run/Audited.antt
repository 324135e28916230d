-- ===== src/App/Execution/Run/Audited.antt =====
-- About the audit entries of the loop of `run_job`, next to its rollback items.
use tidyflow.App.Execution.Run.{RunState}
use tidyflow.App.Files.{FilePath, Files}
use tidyflow.Base.Text.{Text}
use tidyflow.Base.{if◌then◌else◌, is_some, List, [], ◌∷◌, ◌++◌, length, none, some, ◌≡◌, ◌≤◌}
use tidyflow.Domain.Job.{Job}
use tidyflow.Domain.Rollback
use tidyflow.Domain.Rollback.{AuditStatus, NewAuditEntry, RollbackItem}

-- From where, to where, and how.
abbrev Transferred : Type 0
Transferred = FilePath × FilePath × AuditStatus

-- What the rollback items tell of the files, from the first on.
unfoldable pub items_tell : List (RollbackItem FilePath) → List Transferred
items_tell [] = []
items_tell (item ∷ rest) = (item.source_path, item.target_path, item.status) ∷ items_tell rest

tells : NewAuditEntry FilePath → List Transferred
tells entry = elim entry.details [
  | none ↦ (entry.source_path, entry.target_path, entry.status) ∷ []
  | some d ↦ []
]

-- What the audit log, whose newest entry is the head, tells of the files that did not fail, from the
-- first on. The entry of a failure has details.
unfoldable pub audit_tells : List (NewAuditEntry FilePath) → List Transferred
unfolding tells
audit_tells [] = []
audit_tells (entry ∷ older) = audit_tells older ++ tells entry

-- The log tells what the items tell, but for the last of them where an entry was refused.
pub record IsLogged (s : RunState) : Type 0 where
  pub missing : List Transferred
  pub same : items_tell s.rollback_items ≡ audit_tells s.audit ++ missing
  pub at_most : length missing ≤ (if is_some s.error then 1 else 0)
