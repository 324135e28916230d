-- ===== src/Server/Calls.antt =====
-- The calls on AdminServerState. A call takes the time and the new identifiers that it needs.
use tidyflow.Server.Commands.{save_batch_command}
use tidyflow.Server.Access.{ensure_enrollment_token}
use tidyflow.Server.Names.{
  normalize_group_name, normalize_agent_secret, normalize_required_secret, normalize_instance_ids,
  optional_text, normalize_instance_id,
}
use tidyflow.Domain.Error.{DomainError}
use tidyflow.Domain.Admin.{
  AdminQueuedCommand, AdminInstanceSnapshot, AdminMachineGroupRequest, AdminCommandRequest,
  AdminEnrollmentTokenRequest, AdminCommandPollRequest, AdminBatchCommandRequest, AdminOperatorRole,
  AdminMachineGroup, AdminBatchCommandAccepted, AdminCommandAssignment, AdminCommandResult,
  AdminCommandTargetStatus, AdminCommandCompletionRequest, pending, AdminHeartbeatPayload,
  AdminAgentSecretRotationRequest,
}
use tidyflow.Base.Text.{Text, text_eq, codes, msg}
use tidyflow.Base.Map.{get, insert}
use tidyflow.Base.TextMap.{lookup, store}
use tidyflow.Base.Sort.{sort, text_le}
use tidyflow.Domain.Admin.Envelope.{
  enrollment, heartbeat, command, secret_rotation, Crypto, AdminSignedEnvelope, AdminEnvelopeKind,
  verify,
}
use tidyflow.Base.{
  ℕ, List, [], ◌∷◌, ◌++◌, Result, ok, err, Option, none, some, Bool, true, false, not, map, ltb,
  leb, ◌>>=◌, ◌>>◌, bail_if, is_empty,
}
use tidyflow.Server.State.{
  AdminServerState, AdminServerError, machine_group_not_found, envelope_validation,
  missing_instance_id, agent_not_registered, missing_enrollment_token, no_batch_targets,
  invalid_envelope_kind, missing_operator_token, invalid_signature, envelope_instance_mismatch,
  expired_envelope, missing_agent_secret,
}

-- The cryptography, and serde_json's `to_vec` for each payload.
pub record Transport : Type 0 where
  pub crypto : Crypto
  pub poll_vec : AdminCommandPollRequest → Result Text (List ℕ)
  pub assignment_vec : AdminCommandAssignment → Result Text (List ℕ)
  pub completion_vec : AdminCommandCompletionRequest → Result Text (List ℕ)
  pub heartbeat_vec : AdminHeartbeatPayload → Result Text (List ℕ)
  pub rotation_vec : AdminAgentSecretRotationRequest → Result Text (List ℕ)

unfoldable pub is_kind : AdminEnvelopeKind → AdminEnvelopeKind → Bool
is_kind enrollment enrollment = true
is_kind heartbeat heartbeat = true
is_kind command command = true
is_kind secret_rotation secret_rotation = true
is_kind _ _ = false

unfoldable pub agent_secret : AdminServerState → Text → Result AdminServerError Text
agent_secret s id = elim (lookup id s.agent_secrets) [
  | none ↦ err (agent_not_registered id)
  | some secret ↦ ok secret
]

unfoldable pub check_signature : Result DomainError Bool → Result AdminServerError (Unit {0})
check_signature (err e) = err (envelope_validation e)
check_signature (ok true) = ok tt
check_signature (ok false) = err invalid_signature

-- The checks that every envelope passes; the secret of the agent is returned.
module _ {T : Type 0} (c : Crypto) (to_vec : T → Result Text (List ℕ)) where
  unfoldable pub verify_envelope :
      AdminEnvelopeKind
      → AdminServerState
      → Text
      → AdminSignedEnvelope T
      → ℕ
      → Result AdminServerError Text
  verify_envelope kind s id e now =
      bail_if (is_empty id) missing_instance_id
      >> bail_if (not (is_kind e.kind kind)) invalid_envelope_kind
      >> bail_if (not (text_eq e.instance_id id)) envelope_instance_mismatch
      >> bail_if (ltb e.expires_at now) expired_envelope
      >> agent_secret s id
      >>= λ secret. check_signature (verify c to_vec e secret) >> ok secret

unfoldable pub register_enrollment_token :
    Text → AdminServerState → Result AdminServerError (Unit {0}) × AdminServerState
register_enrollment_token token s =
    elim (normalize_required_secret token missing_enrollment_token) [
      | err e ↦ (err e, s)
      | ok t ↦ (ok tt, record s { enrollment_tokens = t ∷ s.enrollment_tokens })
    ]

unfoldable pub register_operator_token :
    Text
    → AdminOperatorRole
    → AdminServerState
    → Result AdminServerError (Unit {0}) × AdminServerState
register_operator_token token role s =
    elim (normalize_required_secret token missing_operator_token) [
      | err e ↦ (err e, s)
      | ok t ↦ (ok tt, record s { operator_tokens = store t role s.operator_tokens })
    ]

unfoldable pub register_agent_secret :
    Text → Text → AdminServerState → Result AdminServerError (Unit {0}) × AdminServerState
register_agent_secret instance_id secret s = elim (normalize_agent_secret instance_id secret) [
  | err e ↦ (err e, s)
  | ok (id, agent_secret) ↦
      (ok tt, record s { agent_secrets = store id agent_secret s.agent_secrets })
]

unfoldable pub save_instance : AdminInstanceSnapshot → AdminServerState → AdminServerState
save_instance i s = record s { instances = store i.instance_id i s.instances }

values {ℓ κ} : {K : Type κ} {V : Type ℓ} → List (K × V) → List V
values [] = []
values ((k, v) ∷ m) = v ∷ values m

unfoldable pub list_instances : AdminServerState → List AdminInstanceSnapshot
unfolding values
list_instances s = sort (λ a b. text_le a.display_name b.display_name) (values s.instances)

unfoldable pub list_machine_groups : AdminServerState → List AdminMachineGroup
unfolding values
list_machine_groups s = sort (λ a b. text_le a.name b.name) (values s.machine_groups)

-- The newest first.
unfoldable pub list_queued_commands : AdminServerState → List AdminQueuedCommand
unfolding values
list_queued_commands s = sort (λ a b. leb b.created_at a.created_at) (values s.command_queue)

unfoldable pub enroll_agent :
    ℕ
    → AdminEnrollmentTokenRequest
    → AdminServerState
    → Result AdminServerError Text × AdminServerState
enroll_agent now request s =
    let checked : Result AdminServerError (Text × Text) = (do
      token ← normalize_required_secret request.token missing_enrollment_token
      ensure_enrollment_token s token
      id ← normalize_instance_id request.instance.instance_id
      secret ← normalize_required_secret request.agent_secret missing_agent_secret
      ok (id, secret)) in
    elim checked [
      | err e ↦ (err e, s)
      | ok (id, secret) ↦
          let (registered, t) = register_agent_secret id secret s in
          let i : AdminInstanceSnapshot = record request.instance {
            instance_id = id;
            last_seen_at = now;
          } in
          elim registered [ err e ↦ (err e, t) | ok u ↦ (ok id, save_instance i t) ]
    ]

unfoldable pub create_machine_group :
    ℕ
    → ℕ
    → AdminMachineGroupRequest
    → AdminServerState
    → Result AdminServerError AdminMachineGroup × AdminServerState
create_machine_group now new_id request s = elim (normalize_group_name request.name) [
  | err e ↦ (err e, s)
  | ok name ↦
      let group : AdminMachineGroup = record {
        id = new_id;
        name = name;
        description = optional_text request.description;
        instance_ids = normalize_instance_ids request.instance_ids;
        created_at = now;
        updated_at = now;
      } in
      (ok group, record s { machine_groups = insert new_id group s.machine_groups })
]

-- The members of the groups, in the order of the request.
pub group_members : List (ℕ × AdminMachineGroup) → List ℕ → Result AdminServerError (List Text)
group_members groups [] = ok []
group_members groups (id ∷ ids) = elim (get id groups) [
  | none ↦ err (machine_group_not_found id)
  | some group ↦ group_members groups ids >>= λ rest. ok (group.instance_ids ++ rest)
]

unfoldable pub resolve_batch_targets :
    AdminBatchCommandRequest → AdminServerState → Result AdminServerError (List Text)
unfolding group_members
resolve_batch_targets request s = do
  members ← group_members s.machine_groups request.group_ids
  ok (
      normalize_instance_ids
        (normalize_instance_ids request.request.target_instance_ids ++ members))

unfoldable pub queued_batch_result : AdminCommandRequest → List Text → AdminCommandResult
queued_batch_result request targets = record {
  accepted = true;
  command = request.kind;
  results =
      map
        (λ target. record {
          target_instance_id = target;
          status = AdminCommandTargetStatus.accepted;
          message = msg "Comando enfileirado no servidor admin";
        })
        targets;
}

source_of : Option Text → Text
source_of none = codes "admin-server"
source_of (some source) = source

unfoldable pub enqueue_batch_command :
    ℕ
    → ℕ
    → AdminBatchCommandRequest
    → AdminServerState
    → Result AdminServerError AdminBatchCommandAccepted × AdminServerState
unfolding source_of
enqueue_batch_command now new_id request s = elim (resolve_batch_targets request s) [
  | err e ↦ (err e, s)
  | ok [] ↦ (err no_batch_targets, s)
  | ok (target ∷ others) ↦
      let targets = target ∷ others in
      let command_request : AdminCommandRequest = record request.request {
        target_instance_ids = targets;
      } in
      let command : AdminQueuedCommand = record {
        id = new_id;
        source = source_of (optional_text request.source);
        request = command_request;
        status = pending;
        result = none;
        created_at = now;
        updated_at = now;
      } in
      (
        ok (record {
          resolved_target_instance_ids = targets;
          command = command;
          result = queued_batch_result command_request targets;
        }),
        save_batch_command command targets s,
      )
]
