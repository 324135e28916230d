-- ===== src/Server/Tests.antt =====
-- The server's theorems at the small server of the samples.
use tidyflow.Server.Samples.{
  agent, batch, completion, crypto, details, group, poll, query, requests, secret, setup, transport,
}
use tidyflow.Server.Runs.{AllFresh, handle, handle_all}
use tidyflow.Server.Runs.Summaries.{handle_all-IsConsistent}
use tidyflow.Server.Runs.Fifo.{all_given, all_handed}
use tidyflow.Server.Runs.Fifo.History.{handle_all-fifo}
use tidyflow.Server.Runs.Drained.{Passes, Poll, handle_all-drained, request_of}
use tidyflow.Server.Routes.Authorized.{Recorded, operator_routes-Recorded}
use tidyflow.Server.Routes.{create_machine_group_route, enqueue_batch_command_route}
use tidyflow.Server.Agents.{complete_command}
use tidyflow.Server.Agents.Authentic.{IsAuthentic, complete_command-IsAuthentic}
use tidyflow.Server.Agents.Signed.{sign-verify_envelope}
use tidyflow.Server.Audit.{append_central_audit, normalized, query_central_audit}
use tidyflow.Server.Audit.Pages.{IsPage, query_central_audit-IsPage}
use tidyflow.Server.Access.{authorize_operator}
use tidyflow.Server.Commands.Waiting.{waiting}
use tidyflow.Server.Commands.Consistent.{IsConsistent}
use tidyflow.Server.Commands.{is_delivery, pending_command_count, save_batch_command}
use tidyflow.Server.Deliveries.{find_first, is_status}
use tidyflow.Server.Names.{
  normalize_agent_secret, normalize_instance_id, normalize_instance_ids, normalize_required_secret,
}
use tidyflow.Server.State.{AdminCommandDelivery, AdminServerError, AdminServerState, new, operate}
use tidyflow.Server.Calls.{
  agent_secret, check_signature, enqueue_batch_command, is_kind, register_agent_secret,
  resolve_batch_targets, verify_envelope,
}
use tidyflow.Domain.Admin.{running}
use tidyflow.Domain.Admin.Envelope.{
  AdminSignedEnvelope, admin_signature_input, as_wire_name, command, hash_admin_payload, sign,
  sign_admin_payload, transport_schema_version, verify,
}
use tidyflow.Domain.Admin.{AdminCommandPollRequest}
use tidyflow.Base.Map.{get}
use tidyflow.Base.Text.{codes, text_eq, trim}
use tidyflow.Base.TextMap.{contains_text, lookup, store, without}
use tidyflow.Base.{
  ◌-◌, ◌≡◌, ◌⊎◌, [], ◌∷◌, ◌++◌, arith, err, false, is_empty, map, ok, refl, some, true,
}

requests_fresh : AllFresh transport details requests new
unfolding handle new get register_agent_secret normalize_agent_secret normalize_instance_id
    normalize_required_secret trim
requests_fresh = (tt, (refl, (tt, (tt, tt))))

handle_all-IsConsistent_example : IsConsistent (handle_all transport details requests new)
handle_all-IsConsistent_example = handle_all-IsConsistent transport details requests requests_fresh

handle_all-fifo_example :
    all_given transport details agent requests new
    ≡ all_handed transport details agent requests new
      ++ waiting agent (handle_all transport details requests new).command_deliveries
handle_all-fifo_example = handle_all-fifo transport details agent requests requests_fresh

setup_fresh : AllFresh transport details setup new
unfolding handle new get register_agent_secret normalize_agent_secret normalize_instance_id
    normalize_required_secret trim
setup_fresh = (tt, (refl, tt))

abbrev a_poll : Poll
a_poll = record { now = 20; nonce = 3; envelope = poll }

poll-Passes : Passes transport details agent (handle_all transport details setup new) a_poll
unfolding handle_all handle new register_agent_secret normalize_agent_secret normalize_instance_id
    normalize_required_secret trim verify_envelope agent_secret check_signature is_kind verify
    hash_admin_payload text_eq lookup store without enqueue_batch_command_route authorize_operator
    enqueue_batch_command resolve_batch_targets normalize_instance_ids contains_text
    save_batch_command append_central_audit transport_schema_version sign_admin_payload
    admin_signature_input as_wire_name
poll-Passes = (secret, refl)

handle_all-drained_example :
    pending_command_count (trim agent) (
      handle_all transport details
        (map (request_of transport details agent) (a_poll ∷ []))
        (handle_all transport details setup new))
    ≡ pending_command_count (trim agent) (handle_all transport details setup new) - 1
handle_all-drained_example =
    handle_all-drained transport details agent setup (a_poll ∷ []) setup_fresh (poll-Passes, tt)

abbrev served : AdminServerState
served = handle_all transport details requests new

complete_command-IsAuthentic_example :
    ((x : AdminServerError) × (complete_command transport 30 agent 1 completion served
        ≡ (err x, served)))
    ⊎ (IsAuthentic crypto transport.completion_vec command served (trim agent) completion 30
        × (completion.payload.command_id ≡ 1)
        × (completion.payload.target_instance_id ≡ trim agent)
        × (d : AdminCommandDelivery) × (find_first
              (is_delivery 1 (trim agent))
              served.command_deliveries
            ≡ some d)
        × (is_status d.status running ≡ true))
complete_command-IsAuthentic_example =
    complete_command-IsAuthentic transport 30 agent 1 completion served

operator_routes-Recorded_example :
    Recorded served
      (some (codes "token-42"))
      operate
      (create_machine_group_route transport details 50 6 7 (some (codes "token-42")) group served).1
    × Recorded served
        (some (codes "token-42"))
        operate
        (enqueue_batch_command_route transport details 50 6 7
          (some (codes "token-42"))
          batch
          served).1
operator_routes-Recorded_example =
    operator_routes-Recorded transport details 50 6 7 (some (codes "token-42")) group batch served

query_central_audit-IsPage_example :
    IsPage served (normalized query) (query_central_audit query served)
query_central_audit-IsPage_example = query_central_audit-IsPage query served

abbrev registered : AdminServerState
registered = record new { agent_secrets = (agent, secret) ∷ [] }

secret_present : is_empty (trim secret) ≡ false
unfolding trim
secret_present = refl

secret_registered : lookup agent registered.agent_secrets ≡ some secret
unfolding lookup text_eq
secret_registered = refl

sign-verify_envelope_example :
    (e : AdminSignedEnvelope AdminCommandPollRequest) × (sign crypto transport.poll_vec 20 9 command
        agent poll.payload secret 60
      ≡ ok e)
    × (e.payload ≡ poll.payload)
    × (verify_envelope crypto transport.poll_vec command registered agent e 30 ≡ ok secret)
sign-verify_envelope_example =
    sign-verify_envelope crypto transport.poll_vec 20 9 command agent poll.payload secret 60
      (20 ∷ []) 30 registered secret_present refl (omega arith) (omega arith) refl secret_registered
      (omega arith)
