-- ===== src/Domain/Error.antt =====
-- crates/autoflow-domain/src/error.rs.
use tidyflow.Base.Text.{Text}

pub data DomainError : Type 0 where
  validation : Text → DomainError
  settings : Text → DomainError
  job_not_found blueprint_not_found job_disabled : DomainError
  source_not_found : Text → DomainError
  already_running : DomainError
  folder_out_of_pattern : Text → DomainError
  database : Text → DomainError
  execution_not_found : DomainError
