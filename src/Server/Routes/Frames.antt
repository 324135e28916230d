-- ===== src/Server/Routes/Frames.antt =====
-- About the state that the calls and the handlers leave.
use tidyflow.Server.Agents.Frames.{rotate_agent_secret-same}
use tidyflow.Server.Agents.{complete_command}
use tidyflow.Server.Access.{authorize_operator}
use tidyflow.Domain.Admin.Envelope.{AdminSignedEnvelope}
use tidyflow.Server.Audit.{append_central_audit}
use tidyflow.Domain.Admin.{
  AdminOperatorRole, AdminMachineGroupRequest, AdminEnrollmentTokenRequest,
  AdminBatchCommandRequest, AdminAgentSecretRotationRequest, AdminCommandCompletionRequest,
}
use tidyflow.Server.Routes.{
  Details, create_machine_group_route, rotate_agent_secret_route, enqueue_batch_command_route,
  enroll_agent_route, complete_command_route,
}
use tidyflow.Server.Calls.{
  register_agent_secret, register_operator_token, register_enrollment_token, create_machine_group,
  enroll_agent, Transport, save_instance, enqueue_batch_command,
}
use tidyflow.Base.Text.{Text}
use tidyflow.Base.{ℕ, arith, Option, Result-cases, ◌⊎◌, inr, inl}
use tidyflow.Server.State.{AdminServerState, operate}
use tidyflow.Server.Commands.Consistent.{SameCommands}

pub register_enrollment_token-same :
    (token : Text) (s : AdminServerState) → SameCommands s (register_enrollment_token token s).1
unfolding register_enrollment_token
register_enrollment_token-same token s = (ground arith, ground arith)

pub register_operator_token-same :
    (token : Text) (role : AdminOperatorRole) (s : AdminServerState)
    → SameCommands s (register_operator_token token role s).1
unfolding register_operator_token
register_operator_token-same token role s = (ground arith, ground arith)

pub register_agent_secret-same :
    (id secret : Text) (s : AdminServerState) → SameCommands s (register_agent_secret id secret s).1
unfolding register_agent_secret
register_agent_secret-same id secret s = (ground arith, ground arith)

enroll_agent-same :
    (now : ℕ) (r : AdminEnrollmentTokenRequest) (s : AdminServerState)
    → SameCommands s (enroll_agent now r s).1
unfolding enroll_agent register_agent_secret save_instance
enroll_agent-same now r s = (ground arith, ground arith)

create_machine_group-same :
    (now new_id : ℕ) (r : AdminMachineGroupRequest) (s : AdminServerState)
    → SameCommands s (create_machine_group now new_id r s).1
unfolding create_machine_group
create_machine_group-same now new_id r s = (ground arith, ground arith)

module _ (h : Transport) (j : Details) (now new_id audit_id : ℕ) where
  pub create_machine_group_route-same :
      (header : Option Text) (r : AdminMachineGroupRequest) (s : AdminServerState)
      → SameCommands s (create_machine_group_route h j now new_id audit_id header r s).1
  unfolding create_machine_group_route create_machine_group append_central_audit
  create_machine_group_route-same header r s = (ground arith, ground arith)

  pub enqueue_batch_command_route-state :
      (header : Option Text) (r : AdminBatchCommandRequest) (s : AdminServerState)
      → SameCommands s (enqueue_batch_command_route h j now new_id audit_id header r s).1
        ⊎ SameCommands
            (enqueue_batch_command now new_id r s).1
            (enqueue_batch_command_route h j now new_id audit_id header r s).1
  unfolding enqueue_batch_command_route append_central_audit
  enqueue_batch_command_route-state header r s =
      elim (Result-cases (authorize_operator s header operate)) [
        | inr (x, bad) ↦ inl (ground (arith, bad), ground (arith, bad))
        | inl (who, good) ↦ inr (ground (arith, good), ground (arith, good))
      ]

  pub complete_command_route-same :
      (id : Text) (command_id : ℕ) (e : AdminSignedEnvelope AdminCommandCompletionRequest)
      (s : AdminServerState)
      → SameCommands
          (complete_command h now id command_id e s).1
          (complete_command_route h j now new_id audit_id id command_id e s).1
  unfolding complete_command_route append_central_audit
  complete_command_route-same id command_id e s = (ground arith, ground arith)

  pub enroll_agent_route-same :
      (r : AdminEnrollmentTokenRequest) (s : AdminServerState)
      → SameCommands s (enroll_agent_route h j now new_id audit_id r s).1
  unfolding enroll_agent_route append_central_audit
  enroll_agent_route-same r s =
      let (queue, deliveries) = enroll_agent-same now r s in (ground arith, ground arith)

  pub rotate_agent_secret_route-same :
      (id : Text) (e : AdminSignedEnvelope AdminAgentSecretRotationRequest) (s : AdminServerState)
      → SameCommands s (rotate_agent_secret_route h j now new_id audit_id id e s).1
  unfolding rotate_agent_secret_route append_central_audit
  rotate_agent_secret_route-same id e s =
      let (queue, deliveries) = rotate_agent_secret-same h now id e s in
      (ground arith, ground arith)
