-- ===== src/Server/Runs.antt =====
-- Sequences of requests to the server. Each handler holds the locks that it needs, so that concurrent
-- requests take effect in some order.
pub mod Summaries
pub mod Fifo
pub mod Drained
use tidyflow.Server.Agents.{poll_next_command, receive_heartbeat}
use tidyflow.Server.Routes.{
  Details, enroll_agent_route, create_machine_group_route, enqueue_batch_command_route,
  complete_command_route, rotate_agent_secret_route,
}
use tidyflow.Server.Calls.{
  Transport, register_enrollment_token, register_operator_token, register_agent_secret,
}
use tidyflow.Domain.Admin.{
  AdminOperatorRole, AdminEnrollmentTokenRequest, AdminMachineGroupRequest,
  AdminBatchCommandRequest, AdminCommandPollRequest, AdminCommandCompletionRequest,
  AdminHeartbeatPayload, AdminAgentSecretRotationRequest,
}
use tidyflow.Base.Text.{Text}
use tidyflow.Base.Map.{get}
use tidyflow.Domain.Admin.Envelope.{AdminSignedEnvelope}
use tidyflow.Domain.Admin
use tidyflow.Base.{ℕ, List, [], ◌∷◌, Option, none, ◌≡◌}
use tidyflow.Server.State.{AdminServerState}

pub data Request : Type 0 where
  registers_enrollment : Text → Request
  registers_operator : Text → AdminOperatorRole → Request
  registers_agent : Text → Text → Request
  enrolls : (now audit_id : ℕ) → AdminEnrollmentTokenRequest → Request
  groups : (now new_id audit_id : ℕ) → Option Text → AdminMachineGroupRequest → Request
  batches : (now new_id audit_id : ℕ) → Option Text → AdminBatchCommandRequest → Request
  polls : (now nonce : ℕ) → Text → AdminSignedEnvelope AdminCommandPollRequest → Request
  completes :
      (now audit_id : ℕ)
      → Text
      → (command_id : ℕ) → AdminSignedEnvelope AdminCommandCompletionRequest
      → Request
  beats : (now : ℕ) → Text → AdminSignedEnvelope AdminHeartbeatPayload → Request
  rotates :
      (now audit_id : ℕ) → Text → AdminSignedEnvelope AdminAgentSecretRotationRequest → Request

module _ (h : Transport) (j : Details) where
  unfoldable pub handle : Request → AdminServerState → AdminServerState
  handle (registers_enrollment token) s = (register_enrollment_token token s).1
  handle (registers_operator token role) s = (register_operator_token token role s).1
  handle (registers_agent id secret) s = (register_agent_secret id secret s).1
  handle (enrolls now audit_id r) s = (enroll_agent_route h j now 0 audit_id r s).1
  handle (groups now new_id audit_id header r) s =
      (create_machine_group_route h j now new_id audit_id header r s).1
  handle (batches now new_id audit_id header r) s =
      (enqueue_batch_command_route h j now new_id audit_id header r s).1
  handle (polls now nonce id e) s = (poll_next_command h now nonce id e s).1
  handle (completes now audit_id id command_id e) s =
      (complete_command_route h j now 0 audit_id id command_id e s).1
  handle (beats now id e) s = (receive_heartbeat h now id e s).1
  handle (rotates now audit_id id e) s = (rotate_agent_secret_route h j now 0 audit_id id e s).1

  unfoldable pub handle_all : List Request → AdminServerState → AdminServerState
  handle_all [] s = s
  handle_all (r ∷ rs) s = handle_all rs (handle r s)

-- `Uuid::new_v4()` gives a batch an identifier that no queued command has.
abbrev pub IsFresh : Request → AdminServerState → Type 0
IsFresh (batches now new_id audit_id header r) s = get new_id s.command_queue ≡ none
IsFresh _ s = Unit {0}

abbrev pub AllFresh : Transport → Details → List Request → AdminServerState → Type 0
AllFresh h j [] s = Unit {0}
AllFresh h j (r ∷ rs) s = IsFresh r s × AllFresh h j rs (handle h j r s)
