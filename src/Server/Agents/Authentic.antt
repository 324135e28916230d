-- ===== src/Server/Agents/Authentic.antt =====
-- About the envelopes that the calls of an agent accept.
use tidyflow.Server.Deliveries.{find_first, is_status}
use tidyflow.Domain.Admin.{AdminCommandCompletionRequest, running}
use tidyflow.Server.Commands.{record_command_completion, is_delivery}
use tidyflow.Server.Agents.{complete_command}
use tidyflow.Server.State.{
  AdminServerState, AdminServerError, AdminCommandDelivery, command_payload_mismatch,
  command_target_mismatch, command_target_not_found, command_not_running,
}
use tidyflow.Server.Calls.{verify_envelope, agent_secret, is_kind, check_signature, Transport}
use tidyflow.Domain.Admin.Envelope.{command, Crypto, AdminEnvelopeKind, AdminSignedEnvelope, verify}
use tidyflow.Base.Text.{Text, text_eq, text_eq→eq, trim}
use tidyflow.Base.TextMap.{lookup}
use tidyflow.Base.{
  ℕ, ◌≡◌, ◌≤◌, ◌⊎◌, inl, inr, List, Result, ok, err, some, true, arith, Result-cases, Bool-cases,
  Option-cases, ◌>>=◌, ◌>>◌, ◌==◌, ==_iff,
}

-- The envelope is for the agent `id`, of the right kind and not expired, and its signature is that of
-- the secret that is registered for the agent.
pub record IsAuthentic {T : Type 0} (c : Crypto) (to_vec : T → Result Text (List ℕ))
    (kind : AdminEnvelopeKind) (s : AdminServerState) (id : Text) (e : AdminSignedEnvelope T)
    (now : ℕ) : Type 0 where
  pub right_kind : is_kind e.kind kind ≡ true
  pub addressed : e.instance_id ≡ id
  pub in_time : now ≤ e.expires_at
  pub signed :
      (secret : Text) × (lookup id s.agent_secrets ≡ some secret)
      × (verify c to_vec e secret ≡ ok true)

module _ {T : Type 0} (c : Crypto) (to_vec : T → Result Text (List ℕ)) where
  signature-verified :
      (s : AdminServerState) (id secret : Text) (e : AdminSignedEnvelope T)
      → (agent_secret s id >>= λ found. check_signature (verify c to_vec e found) >> ok found)
        ≡ ok secret
      → (lookup id s.agent_secrets ≡ some secret) × (verify c to_vec e secret ≡ ok true)
  unfolding agent_secret check_signature
  signature-verified s id secret e h = elim (Option-cases (lookup id s.agent_secrets)) [
    | inl missing ↦ ground (arith, missing)
    | inr (found, at) ↦ elim (Result-cases (verify c to_vec e found)) [
      | inr (x, bad) ↦ ground (arith, at, bad)
      | inl (b, ran) ↦ elim (Bool-cases b) [
        | inl good ↦ ground (arith, at, ran, good)
        | inr bad ↦ ground (arith, at, ran, bad)
      ]
    ]
  ]

  verify_envelope-IsAuthentic :
      (kind : AdminEnvelopeKind) (s : AdminServerState) (id : Text) (e : AdminSignedEnvelope T)
      (now : ℕ) (secret : Text)
      → verify_envelope c to_vec kind s id e now ≡ ok secret
      → IsAuthentic c to_vec kind s id e now
  unfolding verify_envelope
  verify_envelope-IsAuthentic kind s id e now secret h =
      let (at, good) = signature-verified s id secret e (ground arith) in
      record {
        right_kind = ground arith;
        addressed = text_eq→eq e.instance_id id (ground arith);
        in_time = ground arith;
        signed = (secret, at, good);
      }

module _ (h : Transport) where
  -- A completion is either refused, and then nothing is changed; or it comes in an authentic envelope,
  -- names the command and the agent of the route, and the delivery to that agent is running.
  pub complete_command-IsAuthentic :
      (now : ℕ) (path : Text) (command_id : ℕ)
      (e : AdminSignedEnvelope AdminCommandCompletionRequest) (s : AdminServerState)
      → ((x : AdminServerError) × (complete_command h now path command_id e s ≡ (err x, s)))
        ⊎ (IsAuthentic h.crypto h.completion_vec command s (trim path) e now
            × (e.payload.command_id ≡ command_id)
            × (e.payload.target_instance_id ≡ trim path)
            × (d : AdminCommandDelivery) × (find_first
                  (is_delivery command_id (trim path))
                  s.command_deliveries
                ≡ some d)
            × (is_status d.status running ≡ true))
  unfolding complete_command record_command_completion
  complete_command-IsAuthentic now path command_id e s =
      elim (Result-cases (verify_envelope h.crypto h.completion_vec command s (trim path) e now)) [
        | inr (x, bad) ↦ inl (x, ground (arith, bad))
        | inl (secret, checked) ↦
            let authentic =
              verify_envelope-IsAuthentic h.crypto h.completion_vec command s (trim path) e now
                secret checked in
            elim (Bool-cases (e.payload.command_id == command_id)) [
              | inr other ↦ inl (command_payload_mismatch, ground (arith, checked, other))
              | inl same ↦ elim (Bool-cases (text_eq e.payload.target_instance_id (trim path))) [
                | inr other ↦ inl (command_target_mismatch, ground (arith, checked, same, other))
                | inl here ↦
                    elim (Option-cases
                      (find_first (is_delivery command_id (trim path)) s.command_deliveries)) [
                        | inl nothing ↦ inl (
                          command_target_not_found command_id (trim path),
                          ground (arith, checked, same, here, nothing),
                        )
                        | inr (d, found) ↦ elim (Bool-cases (is_status d.status running)) [
                          | inr idle ↦ inl (
                            command_not_running command_id (trim path),
                            ground (arith, checked, same, here, found, idle),
                          )
                          | inl busy ↦ inr (
                            authentic,
                            (==_iff e.payload.command_id command_id).0 same,
                            text_eq→eq e.payload.target_instance_id (trim path) here,
                            d,
                            found,
                            busy,
                          )
                        ]
                      ]
              ]
            ]
      ]
