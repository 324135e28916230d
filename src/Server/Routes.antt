-- ===== src/Server/Routes.antt =====
-- The handlers that `router` names: authorisation, the call, and the entry in the audit. JSON is a
-- parameter, the text of the details of an entry.
pub mod Frames
pub mod Authorized
use tidyflow.Server.Agents.{complete_command, rotate_agent_secret}
use tidyflow.Server.Access.{authorize_operator}
use tidyflow.Domain.Admin.{
  AdminMachineGroup, AdminMachineGroupRequest, AdminCommandCompletionRequest,
  AdminBatchCommandAccepted, AdminBatchCommandRequest, AdminEnrollmentTokenRequest,
  AdminAgentSecretRotationRequest, AdminQueuedCommand,
}
use tidyflow.Server.Calls.{
  Transport, list_machine_groups, create_machine_group, list_queued_commands, enqueue_batch_command,
  enroll_agent,
}
use tidyflow.Server.Audit.{
  AdminCentralAuditQuery, AdminCentralAuditPage, query_central_audit, central_audit_entry,
  append_central_audit, agent_audit_context,
}
use tidyflow.Base.Text.{Text, codes, msg}
use tidyflow.Domain.Admin.Envelope.{AdminSignedEnvelope}
use tidyflow.Base.{ℕ, List, Result, ok, err, Option, none, some}
use tidyflow.Server.State.{
  AdminServerState, view, operate, administer, accepted, AdminServerError, AdminPermission,
  AdminOperatorContext, AdminCentralAuditEntry,
}

pub record Details : Type 0 where
  pub group_details : AdminMachineGroup → Text
  pub batch_details : AdminBatchCommandAccepted → Text
  pub completion_details : Text → AdminQueuedCommand → Text

-- A handler that only reads.
reads {ℓ} :
    {A : Type ℓ}
    → AdminPermission
    → (AdminServerState → A)
    → Option Text
    → AdminServerState
    → Result AdminServerError A × AdminServerState
reads permission answer header s = elim (authorize_operator s header permission) [
  | err e ↦ (err e, s)
  | ok operator ↦ (ok (answer s), s)
]

module _ (h : Transport) (j : Details) (now new_id audit_id : ℕ) where
  -- After a successful call, its entry is appended.
  audited :
      {A : Type 0}
      → (A → AdminCentralAuditEntry)
      → Result AdminServerError A × AdminServerState
      → Result AdminServerError A × AdminServerState
  audited entry (err e, s) = (err e, s)
  audited entry (ok a, s) = (ok a, append_central_audit (entry a) s)

  entry_of : AdminOperatorContext → Text → Text → Text → Option Text → AdminCentralAuditEntry
  entry_of who action target message details =
      central_audit_entry now audit_id who action target accepted message details

  unfoldable pub create_machine_group_route :
      Option Text
      → AdminMachineGroupRequest
      → AdminServerState
      → Result AdminServerError AdminMachineGroup × AdminServerState
  unfolding audited entry_of
  create_machine_group_route header request s = elim (authorize_operator s header operate) [
    | err e ↦ (err e, s)
    | ok who ↦
        audited
          (λ group.
            entry_of who (codes "machineGroup.create") (h.crypto.show_uuid group.id)
              (msg "Grupo de maquinas criado") (some (j.group_details group)))
          (create_machine_group now new_id request s)
  ]

  unfoldable pub enqueue_batch_command_route :
      Option Text
      → AdminBatchCommandRequest
      → AdminServerState
      → Result AdminServerError AdminBatchCommandAccepted × AdminServerState
  unfolding audited entry_of
  enqueue_batch_command_route header request s = elim (authorize_operator s header operate) [
    | err e ↦ (err e, s)
    | ok who ↦
        audited
          (λ batch.
            entry_of who (codes "command.batch.enqueue") (h.crypto.show_uuid batch.command.id)
              (msg "Comando em lote enfileirado") (some (j.batch_details batch)))
          (enqueue_batch_command now new_id request s)
  ]

  unfoldable pub complete_command_route :
      Text
      → ℕ
      → AdminSignedEnvelope AdminCommandCompletionRequest
      → AdminServerState
      → Result AdminServerError AdminQueuedCommand × AdminServerState
  unfolding audited entry_of
  complete_command_route id command_id e s =
      audited
        (λ command.
          entry_of (agent_audit_context id) (codes "command.complete")
            (h.crypto.show_uuid command_id) (msg "Agent registrou resultado de comando")
            (some (j.completion_details id command)))
        (complete_command h now id command_id e s)

  unfoldable pub enroll_agent_route :
      AdminEnrollmentTokenRequest
      → AdminServerState
      → Result AdminServerError Text × AdminServerState
  unfolding audited entry_of
  enroll_agent_route request s =
      audited
        (λ id.
          entry_of (agent_audit_context id) (codes "agent.enroll") id
            (msg "Agent matriculado por token") none)
        (enroll_agent now request s)

  unfoldable pub rotate_agent_secret_route :
      Text
      → AdminSignedEnvelope AdminAgentSecretRotationRequest
      → AdminServerState
      → Result AdminServerError (Unit {0}) × AdminServerState
  unfolding audited entry_of
  rotate_agent_secret_route id e s =
      audited
        (λ u.
          entry_of (agent_audit_context id) (codes "agent.secret.rotate") id
            (msg "Segredo do agent rotacionado") none)
        (rotate_agent_secret h now id e s)

unfoldable pub list_machine_groups_route :
    Option Text
    → AdminServerState
    → Result AdminServerError (List AdminMachineGroup) × AdminServerState
unfolding reads
list_machine_groups_route = reads view list_machine_groups

unfoldable pub list_queued_commands_route :
    Option Text
    → AdminServerState
    → Result AdminServerError (List AdminQueuedCommand) × AdminServerState
unfolding reads
list_queued_commands_route = reads view list_queued_commands

unfoldable pub query_central_audit_route :
    AdminCentralAuditQuery
    → Option Text
    → AdminServerState
    → Result AdminServerError AdminCentralAuditPage × AdminServerState
unfolding reads
query_central_audit_route query = reads administer (query_central_audit query)
