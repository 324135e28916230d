-- ===== src/Server/Agents.antt =====
-- The calls of an agent: poll_next_command, complete_command, receive_heartbeat, rotate_agent_secret.
pub mod Authentic
pub mod Frames
pub mod Signed
use tidyflow.Server.Commands.{assign_next_command, record_command_completion}
use tidyflow.Server.Names.{normalize_required_secret}
use tidyflow.Domain.Admin.{
  AdminCommandPollRequest, AdminHeartbeatPayload, AdminAgentSecretRotationRequest,
  AdminCommandAssignment, AdminCommandCompletionRequest, AdminQueuedCommand,
}
use tidyflow.Server.Calls.{Transport, verify_envelope, save_instance, register_agent_secret}
use tidyflow.Base.Text.{Text, text_eq, trim}
use tidyflow.Domain.Admin.Envelope.{AdminSignedEnvelope, sign, command, heartbeat, secret_rotation}
use tidyflow.Base.{ℕ, ◌==◌, Result, ok, err, Option, none, some, if◌then◌else◌, not}
use tidyflow.Server.Commands.{pending_command_count}
use tidyflow.Server.State.{
  AdminServerState, AdminServerError, envelope_validation, payload_instance_mismatch,
  command_payload_mismatch, missing_agent_secret, command_target_mismatch,
}

module _ (h : Transport) where
  -- The envelope of an assignment; `none` if there is nothing to do.
  sign_assignment :
      Text
      → Text
      → ℕ
      → ℕ
      → Option AdminCommandAssignment
      → Result AdminServerError (Option (AdminSignedEnvelope AdminCommandAssignment))
  sign_assignment id secret now nonce none = ok none
  sign_assignment id secret now nonce (some a) =
      elim (sign h.crypto h.assignment_vec now nonce command id a secret 300) [
        | err e ↦ err (envelope_validation e)
        | ok e ↦ ok (some e)
      ]

  poll_assigned :
      Text
      → Text
      → ℕ
      → ℕ
      → Result AdminServerError (Option AdminCommandAssignment) × AdminServerState
      → Result AdminServerError (Option (AdminSignedEnvelope AdminCommandAssignment) × ℕ)
        × AdminServerState
  unfolding sign_assignment
  poll_assigned id secret now nonce (err e, s) = (err e, s)
  poll_assigned id secret now nonce (ok a, s) = elim (sign_assignment id secret now nonce a) [
    | err e ↦ (err e, s)
    | ok signed ↦ (ok (signed, pending_command_count id s), s)
  ]

  unfoldable pub poll_next_command :
      ℕ
      → ℕ
      → Text
      → AdminSignedEnvelope AdminCommandPollRequest
      → AdminServerState
      → Result AdminServerError (Option (AdminSignedEnvelope AdminCommandAssignment) × ℕ)
        × AdminServerState
  unfolding poll_assigned
  poll_next_command now nonce path_instance_id e s =
      let id = trim path_instance_id in
      elim (verify_envelope h.crypto h.poll_vec command s id e now) [
        | err x ↦ (err x, s)
        | ok secret ↦ poll_assigned id secret now nonce (assign_next_command id now s)
      ]

  complete_checked :
      ℕ
      → Text
      → ℕ
      → AdminCommandCompletionRequest
      → AdminServerState
      → Result AdminServerError AdminQueuedCommand × AdminServerState
  complete_checked now id path_command_id completion s =
      if not (completion.command_id == path_command_id)
      then (err command_payload_mismatch, s)
      else if not (text_eq completion.target_instance_id id)
      then (err command_target_mismatch, s)
      else record_command_completion id path_command_id completion now s

  unfoldable pub complete_command :
      ℕ
      → Text
      → ℕ
      → AdminSignedEnvelope AdminCommandCompletionRequest
      → AdminServerState
      → Result AdminServerError AdminQueuedCommand × AdminServerState
  unfolding complete_checked
  complete_command now path_instance_id path_command_id e s =
      let id = trim path_instance_id in
      elim (verify_envelope h.crypto h.completion_vec command s id e now) [
        | err x ↦ (err x, s)
        | ok secret ↦ complete_checked now id path_command_id e.payload s
      ]

  unfoldable pub receive_heartbeat :
      ℕ
      → Text
      → AdminSignedEnvelope AdminHeartbeatPayload
      → AdminServerState
      → Result AdminServerError Text × AdminServerState
  receive_heartbeat now path_instance_id e s =
      let id = trim path_instance_id in
      elim (verify_envelope h.crypto h.heartbeat_vec heartbeat s id e now) [
        | err x ↦ (err x, s)
        | ok secret ↦
            if not (text_eq e.payload.instance.instance_id id)
            then (err payload_instance_mismatch, s)
            else (ok id, save_instance (record e.payload.instance { last_seen_at = now }) s)
      ]

  unfoldable pub rotate_agent_secret :
      ℕ
      → Text
      → AdminSignedEnvelope AdminAgentSecretRotationRequest
      → AdminServerState
      → Result AdminServerError (Unit {0}) × AdminServerState
  rotate_agent_secret now path_instance_id e s =
      let id = trim path_instance_id in
      elim (verify_envelope h.crypto h.rotation_vec secret_rotation s id e now) [
        | err x ↦ (err x, s)
        | ok secret ↦
            elim (normalize_required_secret e.payload.new_agent_secret missing_agent_secret) [
              | err x ↦ (err x, s)
              | ok new_secret ↦ register_agent_secret id new_secret s
            ]
      ]
