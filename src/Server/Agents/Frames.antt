-- ===== src/Server/Agents/Frames.antt =====
-- About the state that the calls of an agent leave.
use tidyflow.Server.Commands.Consistent.{SameCommands}
use tidyflow.Server.Commands.{assign_next_command, record_command_completion}
use tidyflow.Domain.Admin.{
  AdminCommandCompletionRequest, AdminCommandPollRequest, AdminCommandAssignment,
  AdminHeartbeatPayload, AdminAgentSecretRotationRequest,
}
use tidyflow.Server.Agents.{
  poll_assigned, poll_next_command, complete_command, sign_assignment, rotate_agent_secret,
  receive_heartbeat,
}
use tidyflow.Server.Calls.{Transport, verify_envelope, register_agent_secret, save_instance}
use tidyflow.Base.Text.{Text, trim, text_eq}
use tidyflow.Base.{
  ℕ, ◌≡◌, ◌⊎◌, inl, inr, ok, err, arith, refl, Result, Option, Result-cases, Bool-cases, ◌==◌,
}
use tidyflow.Domain.Admin.Envelope.{AdminSignedEnvelope, command}
use tidyflow.Server.State.{AdminServerState, AdminServerError}

module _ (h : Transport) where
  poll_assigned-state :
      (id secret : Text) (now nonce : ℕ)
      (r : Result AdminServerError (Option AdminCommandAssignment) × AdminServerState)
      → (poll_assigned h id secret now nonce r).1 ≡ r.1
  unfolding poll_assigned
  poll_assigned-state id secret now nonce (err e, s) = refl
  poll_assigned-state id secret now nonce (ok a, s) =
      elim (Result-cases (sign_assignment h id secret now nonce a)) [
        | inl (x, good) ↦ ground (arith, good)
        | inr (x, bad) ↦ ground (arith, bad)
      ]

  pub poll_next_command-accepted :
      (now nonce : ℕ) (path : Text) (e : AdminSignedEnvelope AdminCommandPollRequest)
      (s : AdminServerState) (secret : Text)
      → verify_envelope h.crypto h.poll_vec command s (trim path) e now ≡ ok secret
      → (poll_next_command h now nonce path e s).1 ≡ (assign_next_command (trim path) now s).1
  unfolding poll_next_command
  poll_next_command-accepted now nonce path e s secret good =
      rw (good, poll_next_command)
        (poll_assigned-state (trim path) secret now nonce (assign_next_command (trim path) now s))

  pub poll_next_command-state :
      (now nonce : ℕ) (path : Text) (e : AdminSignedEnvelope AdminCommandPollRequest)
      (s : AdminServerState)
      → ((poll_next_command h now nonce path e s).1 ≡ s)
        ⊎ ((poll_next_command h now nonce path e s).1 ≡ (assign_next_command (trim path) now s).1)
  unfolding poll_next_command
  poll_next_command-state now nonce path e s =
      elim (Result-cases (verify_envelope h.crypto h.poll_vec command s (trim path) e now)) [
        | inr (x, bad) ↦ inl (rw (bad, poll_next_command) refl)
        | inl (secret, good) ↦ inr (poll_next_command-accepted now nonce path e s secret good)
      ]

  pub complete_command-state :
      (now : ℕ) (path : Text) (id : ℕ) (e : AdminSignedEnvelope AdminCommandCompletionRequest)
      (s : AdminServerState)
      → ((complete_command h now path id e s).1 ≡ s)
        ⊎ ((complete_command h now path id e s).1
            ≡ (record_command_completion (trim path) id e.payload now s).1)
  unfolding complete_command
  complete_command-state now path id e s =
      elim (Result-cases (verify_envelope h.crypto h.completion_vec command s (trim path) e now)) [
        | inr (x, bad) ↦ inl (rw (bad, complete_command) refl)
        | inl (secret, good) ↦ elim (Bool-cases (e.payload.command_id == id)) [
          | inr other ↦ inl (ground (arith, good, other))
          | inl same ↦ elim (Bool-cases (text_eq e.payload.target_instance_id (trim path))) [
            | inr other ↦ inl (ground (arith, good, same, other))
            | inl here ↦ inr (ground (arith, good, same, here))
          ]
        ]
      ]

  pub receive_heartbeat-same :
      (now : ℕ) (path : Text) (e : AdminSignedEnvelope AdminHeartbeatPayload) (s : AdminServerState)
      → SameCommands s (receive_heartbeat h now path e s).1
  unfolding receive_heartbeat save_instance
  receive_heartbeat-same now path e s = (ground arith, ground arith)

  pub rotate_agent_secret-same :
      (now : ℕ) (path : Text) (e : AdminSignedEnvelope AdminAgentSecretRotationRequest)
      (s : AdminServerState)
      → SameCommands s (rotate_agent_secret h now path e s).1
  unfolding rotate_agent_secret register_agent_secret
  rotate_agent_secret-same now path e s = (ground arith, ground arith)
