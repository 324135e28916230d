-- ===== src/Server/Runs/Fifo/Steps.antt =====
-- About the agents' queues after one request.
use tidyflow.Server.Names.{normalize_instance_ids}
use tidyflow.Server.Commands.Waiting.Taken.{assign_next_command-others, assign_next_command-Takes}
use tidyflow.Server.Agents.Frames.{poll_next_command-accepted}
use tidyflow.Server.Commands.Waiting.Batch.{save_batch_command-waiting}
use tidyflow.Server.Access.{authorize_operator}
use tidyflow.Server.Runs.{polls}
use tidyflow.Server.Commands.Consistent.{IsConsistent}
use tidyflow.Server.Commands.Waiting.{waiting}
use tidyflow.Server.Names.Distinct.{NoRepeat, normalize_instance_ids-NoRepeat}
use tidyflow.Server.Audit.{append_central_audit}
use tidyflow.Domain.Admin.Envelope.{AdminSignedEnvelope}
use tidyflow.Server.State.{AdminServerState, AdminServerError, operate}
use tidyflow.Server.Agents.{poll_next_command}
use tidyflow.Domain.Admin.{AdminBatchCommandRequest, AdminCommandPollRequest}
use tidyflow.Domain.Admin.Envelope.{command}
use tidyflow.Base.Text.{Text, trim, text_eq, text_eq→eq}
use tidyflow.Server.Routes.{Details, enqueue_batch_command_route}
use tidyflow.Server.Calls.{
  resolve_batch_targets, Transport, enqueue_batch_command, verify_envelope, group_members,
}
use tidyflow.Server.Runs.Fifo.{given_by, hands, taken_by}
use tidyflow.Base.{
  ℕ, List, [], ◌∷◌, ◌++◌, ◌≡◌, Result, ok, Option, Result-cases, err, arith, inr, sym, inl, refl,
  Bool-cases, subst,
}
use mathlib.Core.List.{append-nil}

targets-NoRepeat :
    (r : AdminBatchCommandRequest) (s : AdminServerState) (targets : List Text)
    → resolve_batch_targets r s ≡ ok targets
    → NoRepeat targets
unfolding resolve_batch_targets
targets-NoRepeat r s targets e = elim (Result-cases (group_members s.machine_groups r.group_ids)) [
  | inr (x, bad) ↦ ground (arith, bad)
  | inl (members, good) ↦
      let ids = normalize_instance_ids r.request.target_instance_ids ++ members in
      let same : normalize_instance_ids ids ≡ targets = ground (arith, good) in
      subst NoRepeat same (normalize_instance_ids-NoRepeat ids)
]

enqueue-waiting :
    (id : Text) (now new_id : ℕ) (r : AdminBatchCommandRequest) (s : AdminServerState)
    (targets : Result AdminServerError (List Text))
    → resolve_batch_targets r s ≡ targets
    → waiting id s.command_deliveries ++ given_by id (enqueue_batch_command now new_id r s).0
      ≡ waiting id (enqueue_batch_command now new_id r s).1.command_deliveries
unfolding enqueue_batch_command given_by
enqueue-waiting id now new_id r s (err e) resolved =
    ground (arith, resolved, append-nil (waiting id s.command_deliveries))
enqueue-waiting id now new_id r s (ok []) resolved =
    ground (arith, resolved, append-nil (waiting id s.command_deliveries))
enqueue-waiting id now new_id r s (ok (t ∷ ts)) resolved =
    rw (resolved, enqueue_batch_command)
      (sym (save_batch_command-waiting _ (t ∷ ts) s id (targets-NoRepeat r s (t ∷ ts) resolved)))

module _ (h : Transport) (j : Details) where
  pub route-waiting :
      (id : Text) (now new_id audit_id : ℕ) (header : Option Text) (r : AdminBatchCommandRequest)
      (s : AdminServerState)
      → let (answer, t) = enqueue_batch_command_route h j now new_id audit_id header r s in
        waiting id s.command_deliveries ++ given_by id answer ≡ waiting id t.command_deliveries
  unfolding enqueue_batch_command_route append_central_audit given_by
  route-waiting id now new_id audit_id header r s =
      elim (Result-cases (authorize_operator s header operate)) [
        | inr (x, bad) ↦ ground (arith, bad, append-nil (waiting id s.command_deliveries))
        | inl (who, good) ↦
            let step = enqueue-waiting id now new_id r s (resolve_batch_targets r s) refl in
            ground (arith, good, step)
      ]

  pub poll-waiting :
      (id : Text) (now nonce : ℕ) (path : Text) (e : AdminSignedEnvelope AdminCommandPollRequest)
      (s : AdminServerState)
      → IsConsistent s
      → waiting id s.command_deliveries
        ≡ hands h j id (polls now nonce path e) s
          ++ waiting id (poll_next_command h now nonce path e s).1.command_deliveries
  unfolding hands poll_next_command taken_by
  poll-waiting id now nonce path e s v =
      elim (Result-cases (verify_envelope h.crypto h.poll_vec command s (trim path) e now)) [
        | inr (x, bad) ↦ ground (arith, bad)
        | inl (secret, good) ↦
            let state = poll_next_command-accepted h now nonce path e s secret good in
            elim (Bool-cases (text_eq (trim path) id)) [
              | inr other ↦
                  ground (
                    arith,
                    good,
                    other,
                    state,
                    assign_next_command-others (trim path) now s id other,
                  )
              | inl here ↦ elim (assign_next_command-Takes (trim path) now s v) [
                | inl (idle, empty) ↦ ground (arith, good, here, state, idle)
                | inr takes ↦ ground (
                  arith,
                  good,
                  here,
                  state,
                  takes.answer,
                  takes.head,
                  text_eq→eq (trim path) id here,
                )
              ]
            ]
      ]
