-- ===== src/Server/State.antt =====
-- The state of the admin server: AdminServerState with MemoryAdminServerStore, and AdminServerError.
use tidyflow.Domain.Error.{DomainError}
use tidyflow.Domain.Admin.{
  AdminOperatorRole, AdminInstanceSnapshot, AdminQueuedCommandStatus, AdminMachineGroup,
  AdminQueuedCommand,
}
use tidyflow.Base.Text.{Text}
use tidyflow.Base.{ℕ, List, Option, []}

pub data AdminServerError : Type 0 where
  missing_instance_id missing_agent_secret : AdminServerError
  missing_enrollment_token missing_operator_token : AdminServerError
  enrollment_not_configured invalid_enrollment_token : AdminServerError
  operator_auth_required operator_forbidden : AdminServerError
  agent_not_registered : Text → AdminServerError
  missing_machine_group_name : AdminServerError
  machine_group_not_found : ℕ → AdminServerError
  no_batch_targets : AdminServerError
  command_not_found : ℕ → AdminServerError
  command_payload_mismatch command_target_mismatch : AdminServerError
  command_target_not_found command_not_running : ℕ → Text → AdminServerError
  invalid_envelope_kind envelope_instance_mismatch payload_instance_mismatch : AdminServerError
  expired_envelope invalid_signature : AdminServerError
  envelope_validation : DomainError → AdminServerError
  database_error : Text → AdminServerError

pub record AdminCommandDelivery : Type 0 where
  pub command_id : ℕ
  pub target_instance_id : Text
  pub status : AdminQueuedCommandStatus
  pub assigned_at : Option ℕ
  pub completed_at : Option ℕ
  pub message : Option Text

pub record AdminCommandDeliveryState : Type 0 where
  pub target_instance_id : Text
  pub status : AdminQueuedCommandStatus
  pub message : Option Text

pub record AdminOperatorContext : Type 0 where
  pub actor : Text
  pub role : Option AdminOperatorRole

pub data AdminPermission : Type 0 where
  view operate administer : AdminPermission

pub data AdminCentralAuditStatus : Type 0 where
  accepted rejected failed : AdminCentralAuditStatus

pub record AdminCentralAuditEntry : Type 0 where
  pub id : ℕ
  pub actor : Text
  pub role : Option AdminOperatorRole
  pub action : Text
  pub target : Text
  pub status : AdminCentralAuditStatus
  pub message : Text
  pub details : Option Text
  pub created_at : ℕ

pub record AdminServerState : Type 0 where
  pub instances : List (Text × AdminInstanceSnapshot)
  pub agent_secrets : List (Text × Text)
  pub machine_groups : List (ℕ × AdminMachineGroup)
  pub command_queue : List (ℕ × AdminQueuedCommand)
  -- In the order in which they were pushed, as the entries of the audit.
  pub command_deliveries : List AdminCommandDelivery
  pub central_audit : List AdminCentralAuditEntry
  pub enrollment_tokens : List Text
  pub operator_tokens : List (Text × AdminOperatorRole)

unfoldable pub new : AdminServerState
new = record {
  instances = [];
  agent_secrets = [];
  machine_groups = [];
  command_queue = [];
  command_deliveries = [];
  central_audit = [];
  enrollment_tokens = [];
  operator_tokens = [];
}
