-- ===== src/Domain/Admin.antt =====
-- crates/autoflow-domain/src/admin.rs: what the admin server and its agents exchange. An identifier is a
-- number, an instant a number of nanoseconds. The redacting Debug implementations are left out.
pub mod Envelope
use tidyflow.Base.Text.{Text}
use tidyflow.Base.{ℕ, Bool, List, Option}
use tidyflow.Domain.Job.{Job, JobMode}

pub data AdminInstanceStatus : Type 0 where
  online warning offline : AdminInstanceStatus

pub data AdminCommandKind : Type 0 where
  start_job cancel_execution pause_job resume_job stop_job : AdminCommandKind
  create_job update_job delete_job apply_settings_policy request_logs : AdminCommandKind

pub data AdminCommandSupport : Type 0 where
  available planned : AdminCommandSupport

pub record AdminCommandCapability : Type 0 where
  pub kind : AdminCommandKind
  pub label : Text
  pub support : AdminCommandSupport
  pub scope : Text
  pub requires_confirmation : Bool

pub record AdminHardwareProfile : Type 0 where
  pub host_name : Text
  pub operating_system : Text
  pub architecture : Text
  pub cpu_threads : ℕ
  pub total_memory_mb : Option ℕ
  pub app_version : Text

pub record AdminNetworkInterface : Type 0 where
  pub name : Text
  pub address : Option Text
  pub kind : Text

pub record AdminNetworkProfile : Type 0 where
  pub domain : Option Text
  pub interfaces : List AdminNetworkInterface

-- crates/autoflow-domain/src/settings.rs.
pub data AdminAgentMode : Type 0 where
  local_only managed_agent : AdminAgentMode

pub record AdminManagementProfile : Type 0 where
  pub enabled : Bool
  pub mode : AdminAgentMode
  pub server_url : Option Text
  pub allow_remote_commands : Bool
  pub allow_batch_commands : Bool
  pub heartbeat_interval_secs : ℕ
  pub inventory_interval_secs : ℕ

pub data AdminJobRuntimeStatus : Type 0 where
  running scheduled idle disabled : AdminJobRuntimeStatus

pub record AdminManagedJob : Type 0 where
  pub id : ℕ
  pub name : Text
  pub mode : JobMode
  pub enabled : Bool
  pub source_path : Text
  pub target_path : Text
  pub last_run : Option ℕ
  pub next_run : Option ℕ
  pub status : AdminJobRuntimeStatus

-- crates/autoflow-domain/src/execution.rs, without the two rates: floats.
pub record ActiveExecution : Type 0 where
  pub execution_id : ℕ
  pub job_id : ℕ
  pub job_name : Text
  pub current_file : Text
  pub recent_log : List Text

pub record AdminInstanceSnapshot : Type 0 where
  pub instance_id : Text
  pub display_name : Text
  pub status : AdminInstanceStatus
  pub last_seen_at : ℕ
  pub hardware : AdminHardwareProfile
  pub network : AdminNetworkProfile
  pub management : AdminManagementProfile
  pub jobs : List AdminManagedJob
  pub active_executions : List ActiveExecution
  pub capabilities : List AdminCommandCapability

pub record AdminMachineGroup : Type 0 where
  pub id : ℕ
  pub name : Text
  pub description : Option Text
  pub instance_ids : List Text
  pub created_at : ℕ
  pub updated_at : ℕ

pub record AdminMachineGroupRequest : Type 0 where
  pub name : Text
  pub description : Option Text
  pub instance_ids : List Text

pub data AdminOperatorRole : Type 0 where
  viewer operator admin : AdminOperatorRole

pub record AdminJobPayload : Type 0 where
  pub job : Job
  pub preview_only : Bool

pub record AdminCommandRequest : Type 0 where
  pub kind : AdminCommandKind
  pub target_instance_ids : List Text
  pub job_ids : List ℕ
  pub execution_ids : List ℕ
  pub reason : Option Text
  pub job_payloads : List AdminJobPayload

pub record AdminBatchCommandRequest : Type 0 where
  pub request : AdminCommandRequest
  pub group_ids : List ℕ
  pub source : Option Text

pub record AdminCommandPollRequest : Type 0 where
  pub requested_at : ℕ

pub record AdminCommandAssignment : Type 0 where
  pub command_id : ℕ
  pub target_instance_id : Text
  pub request : AdminCommandRequest
  pub assigned_at : ℕ

pub data AdminCommandCompletionStatus : Type 0 where
  completed failed skipped : AdminCommandCompletionStatus

pub record AdminCommandCompletionRequest : Type 0 where
  pub command_id : ℕ
  pub target_instance_id : Text
  pub status : AdminCommandCompletionStatus
  pub message : Text
  pub completed_at : ℕ

pub data AdminCommandTargetStatus : Type 0 where
  accepted skipped error : AdminCommandTargetStatus

pub record AdminCommandTargetResult : Type 0 where
  pub target_instance_id : Text
  pub status : AdminCommandTargetStatus
  pub message : Text

pub record AdminCommandResult : Type 0 where
  pub accepted : Bool
  pub command : AdminCommandKind
  pub results : List AdminCommandTargetResult

pub data AdminQueuedCommandStatus : Type 0 where
  pending running completed failed skipped : AdminQueuedCommandStatus

pub record AdminQueuedCommand : Type 0 where
  pub id : ℕ
  pub source : Text
  pub request : AdminCommandRequest
  pub status : AdminQueuedCommandStatus
  pub result : Option AdminCommandResult
  pub created_at : ℕ
  pub updated_at : ℕ

pub record AdminBatchCommandAccepted : Type 0 where
  pub resolved_target_instance_ids : List Text
  pub command : AdminQueuedCommand
  pub result : AdminCommandResult

pub record AdminHeartbeatPayload : Type 0 where
  pub instance : AdminInstanceSnapshot
  pub generated_at : ℕ
  pub pending_command_count : ℕ

pub record AdminAgentSecretRotationRequest : Type 0 where
  pub new_agent_secret : Text
  pub requested_at : ℕ

pub record AdminEnrollmentTokenRequest : Type 0 where
  pub token : Text
  pub agent_secret : Text
  pub instance : AdminInstanceSnapshot
  pub requested_at : ℕ
