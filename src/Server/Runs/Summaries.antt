-- ===== src/Server/Runs/Summaries.antt =====
-- About the commands of the queue after any requests.
use tidyflow.Server.Commands.Completed.{record_command_completion-IsConsistent}
use tidyflow.Server.Routes.Frames.{
  register_enrollment_token-same, register_operator_token-same, register_agent_secret-same,
  enroll_agent_route-same, create_machine_group_route-same, enqueue_batch_command_route-state,
  complete_command_route-same, rotate_agent_secret_route-same,
}
use tidyflow.Server.Commands.Assigned.{assign_next_command-IsConsistent}
use tidyflow.Server.Agents.Frames.{
  poll_next_command-state, complete_command-state, receive_heartbeat-same,
}
use tidyflow.Server.Commands.Batch.{save_batch_command-IsConsistent}
use tidyflow.Server.Runs.{
  handle, Request, IsFresh, registers_enrollment, registers_operator, registers_agent, enrolls,
  groups, batches, polls, completes, beats, rotates, handle_all, AllFresh,
}
use tidyflow.Server.Routes.{
  Details, enroll_agent_route, create_machine_group_route, enqueue_batch_command_route,
  complete_command_route, rotate_agent_secret_route,
}
use tidyflow.Domain.Admin.{AdminBatchCommandRequest}
use tidyflow.Server.Calls.{
  enqueue_batch_command, Transport, resolve_batch_targets, register_enrollment_token,
  register_operator_token, register_agent_secret,
}
use tidyflow.Server.Agents.{complete_command, receive_heartbeat}
use tidyflow.Base.Text.{Text, trim}
use tidyflow.Base.Map.{get}
use tidyflow.Base.{ℕ, List, [], ◌∷◌, none, ◌≡◌, refl, ok, err, inl, inr, Result}
use tidyflow.Server.State.{AdminServerState, new, AdminServerError}
use tidyflow.Server.Commands.Consistent.{IsConsistent, IsConsistent-frame}

pub new-IsConsistent : IsConsistent new
unfolding new
new-IsConsistent = record {
  settled = λ id c at. absurd (unfold get in cc at);
  named = λ id c at. absurd (unfold get in cc at);
  linked = tt;
}

batch-IsConsistent :
    (now new_id : ℕ) (r : AdminBatchCommandRequest) (s : AdminServerState)
    (targets : Result AdminServerError (List Text))
    → resolve_batch_targets r s ≡ targets
    → get new_id s.command_queue ≡ none
    → IsConsistent s
    → IsConsistent (enqueue_batch_command now new_id r s).1
unfolding enqueue_batch_command
batch-IsConsistent now new_id r s (err e) resolved fresh v = rw (resolved, enqueue_batch_command) v
batch-IsConsistent now new_id r s (ok []) resolved fresh v = rw (resolved, enqueue_batch_command) v
batch-IsConsistent now new_id r s (ok (t ∷ ts)) resolved fresh v =
    rw (resolved, enqueue_batch_command)
      (save_batch_command-IsConsistent _ (t ∷ ts) s fresh refl refl v)

module _ (h : Transport) (j : Details) where
  pub handle-IsConsistent :
      (r : Request) (s : AdminServerState)
      → IsFresh r s
      → IsConsistent s
      → IsConsistent (handle h j r s)
  unfolding handle
  handle-IsConsistent (registers_enrollment token) s fresh v =
      IsConsistent-frame s (register_enrollment_token token s).1
        (register_enrollment_token-same token s) v
  handle-IsConsistent (registers_operator token role) s fresh v =
      IsConsistent-frame s (register_operator_token token role s).1
        (register_operator_token-same token role s) v
  handle-IsConsistent (registers_agent id secret) s fresh v =
      IsConsistent-frame s (register_agent_secret id secret s).1
        (register_agent_secret-same id secret s) v
  handle-IsConsistent (enrolls now audit_id r) s fresh v =
      IsConsistent-frame s (enroll_agent_route h j now 0 audit_id r s).1
        (enroll_agent_route-same h j now 0 audit_id r s) v
  handle-IsConsistent (groups now new_id audit_id header r) s fresh v =
      IsConsistent-frame s (create_machine_group_route h j now new_id audit_id header r s).1
        (create_machine_group_route-same h j now new_id audit_id header r s) v
  handle-IsConsistent (batches now new_id audit_id header r) s fresh v =
      let t = (enqueue_batch_command_route h j now new_id audit_id header r s).1 in
      elim (enqueue_batch_command_route-state h j now new_id audit_id header r s) [
        | inl same ↦ IsConsistent-frame s t same v
        | inr same ↦
            IsConsistent-frame (enqueue_batch_command now new_id r s).1 t same
              (batch-IsConsistent now new_id r s (resolve_batch_targets r s) refl fresh v)
      ]
  handle-IsConsistent (polls now nonce id e) s fresh v =
      elim (poll_next_command-state h now nonce id e s) [
        | inl same ↦ rw same v
        | inr step ↦ rw step (assign_next_command-IsConsistent (trim id) now s v)
      ]
  handle-IsConsistent (completes now audit_id id command_id e) s fresh v =
      let t = (complete_command_route h j now 0 audit_id id command_id e s).1 in
      let u = (complete_command h now id command_id e s).1 in
      let done : IsConsistent u = elim (complete_command-state h now id command_id e s) [
        | inl same ↦ rw same v
        | inr step ↦
            rw step (record_command_completion-IsConsistent (trim id) command_id e.payload now s v)
      ] in
      IsConsistent-frame u t (complete_command_route-same h j now 0 audit_id id command_id e s) done
  handle-IsConsistent (beats now id e) s fresh v =
      IsConsistent-frame s (receive_heartbeat h now id e s).1 (receive_heartbeat-same h now id e s)
        v
  handle-IsConsistent (rotates now audit_id id e) s fresh v =
      IsConsistent-frame s (rotate_agent_secret_route h j now 0 audit_id id e s).1
        (rotate_agent_secret_route-same h j now 0 audit_id id e s) v

  handle_all-keeps :
      (rs : List Request) (s : AdminServerState)
      → AllFresh h j rs s
      → IsConsistent s
      → IsConsistent (handle_all h j rs s)
  unfolding handle_all
  handle_all-keeps [] s fresh v = v
  handle_all-keeps (r ∷ rs) s (first, rest) v =
      handle_all-keeps rs (handle h j r s) rest (handle-IsConsistent r s first v)

  -- After any sequence of requests to a new server, in which each batch got a fresh identifier, every
  -- queued command has the status and the result that its deliveries give it, and no delivery is of a
  -- command that is not queued.
  pub handle_all-IsConsistent :
      (rs : List Request) → AllFresh h j rs new → IsConsistent (handle_all h j rs new)
  handle_all-IsConsistent rs fresh = handle_all-keeps rs new fresh new-IsConsistent
