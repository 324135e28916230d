-- ===== src/Server/Routes/Authorized.antt =====
-- About the operators whose requests change the state.
use tidyflow.Base.TextMap.{lookup}
use tidyflow.Server.Commands.{save_batch_command}
use tidyflow.Base.Text.{Text, trim}
use tidyflow.Server.Audit.{append_central_audit, central_audit_entry}
use tidyflow.Server.Calls.{Transport, create_machine_group, enqueue_batch_command}
use tidyflow.Server.Routes.{
  Details, audited, entry_of, create_machine_group_route, enqueue_batch_command_route,
}
use tidyflow.Server.Access.{
  authorize_operator, authorize_role, operator_actor, operator_role_allows,
}
use tidyflow.Domain.Admin.{
  AdminOperatorRole, admin, AdminMachineGroupRequest, AdminBatchCommandRequest,
}
use tidyflow.Server.State.{
  accepted, AdminServerError, AdminServerState, AdminPermission, operate, AdminOperatorContext,
  AdminCentralAuditEntry,
}
use tidyflow.Base.{
  ℕ, [], ◌∷◌, ◌++◌, ◌≡◌, Result, err, Option, is_empty, ok, Bool-cases, true, Result-cases, inr,
  inl, some, arith, Option-cases, refl,
}

-- Who has a permission: anybody, as an administrator, while no operator token is registered; and then
-- who sends a registered token whose role allows it.
pub data Entitled (s : AdminServerState) (header : Option Text) (permission : AdminPermission)
    (who : AdminOperatorContext) : Type 0 where
  open_server :
      is_empty s.operator_tokens ≡ true → who.role ≡ some admin → Entitled s header permission who
  by_token :
      (value : Text) (role : AdminOperatorRole)
      → header ≡ some value
      → lookup (trim value) s.operator_tokens ≡ some role
      → operator_role_allows role permission ≡ true
      → who ≡ record { actor = operator_actor (trim value); role = some role }
      → Entitled s header permission who

authorize_operator-Entitled :
    (s : AdminServerState) (header : Option Text) (permission : AdminPermission)
    (who : AdminOperatorContext)
    → authorize_operator s header permission ≡ ok who
    → Entitled s header permission who
unfolding authorize_operator authorize_role
authorize_operator-Entitled s header permission who e =
    elim (Bool-cases (is_empty s.operator_tokens)) [
      | inl none_yet ↦ open_server none_yet (ground (arith, none_yet))
      | inr some_token ↦ elim (Option-cases header) [
        | inl missing ↦ ground (arith, some_token, missing)
        | inr (value, given) ↦ elim (Option-cases (lookup (trim value) s.operator_tokens)) [
          | inl unknown ↦ ground (arith, some_token, given, unknown)
          | inr (role, at) ↦ elim (Bool-cases (operator_role_allows role permission)) [
            | inr forbidden ↦ ground (arith, some_token, given, at, forbidden)
            | inl allowed ↦
                by_token value role given at allowed
                  (ground (arith, some_token, given, at, allowed))
          ]
        ]
      ]
    ]

-- Nothing changed; or an entitled operator made the change, and one entry of the audit has the operator's
-- name and role.
pub data Recorded (s : AdminServerState) (header : Option Text) (permission : AdminPermission)
    (t : AdminServerState) : Type 0 where
  unchanged : t ≡ s → Recorded s header permission t
  recorded :
      (who : AdminOperatorContext) (e : AdminCentralAuditEntry)
      → Entitled s header permission who
      → t.central_audit ≡ s.central_audit ++ e ∷ []
      → e.actor ≡ who.actor
      → e.role ≡ who.role
      → Recorded s header permission t

module _ (h : Transport) (j : Details) (now new_id audit_id : ℕ) where
  -- A call that leaves the audit alone, and that changes nothing when it fails.
  audited-Recorded :
      {A : Type 0} (header : Option Text) (permission : AdminPermission)
      (who : AdminOperatorContext) (action : Text) (target : A → Text) (message : Text)
      (details : A → Option Text) (s : AdminServerState)
      (r : Result AdminServerError A × AdminServerState)
      → Entitled s header permission who
      → r.1.central_audit ≡ s.central_audit
      → ((x : AdminServerError) → r.0 ≡ err x → r.1 ≡ s)
      → Recorded s header permission
          (audited h j now new_id audit_id
            (λ a. entry_of h j now new_id audit_id who action (target a) message (details a))
            r).1
  unfolding audited entry_of append_central_audit central_audit_entry
  audited-Recorded header permission who action target message details s (err x, t) may kept same =
      unchanged (same x refl)
  audited-Recorded header permission who action target message details s (ok a, t) may kept same =
      recorded who
        (central_audit_entry now audit_id who action (target a) accepted message (details a)) may
        (ground (arith, kept)) refl refl

  group_route-Recorded :
      (header : Option Text) (r : AdminMachineGroupRequest) (s : AdminServerState)
      → Recorded s header operate (create_machine_group_route h j now new_id audit_id header r s).1
  unfolding create_machine_group_route
  group_route-Recorded header r s = elim (Result-cases (authorize_operator s header operate)) [
    | inr (x, bad) ↦ unchanged (ground (arith, bad))
    | inl (who, good) ↦
        rw (good, create_machine_group_route)
          (audited-Recorded header operate who _ _ _ _ s (create_machine_group now new_id r s)
            (authorize_operator-Entitled s header operate who good)
            (unfold create_machine_group in ground arith)
            (λ x failed. unfold create_machine_group in ground arith))
  ]

  batch_route-Recorded :
      (header : Option Text) (r : AdminBatchCommandRequest) (s : AdminServerState)
      → Recorded s header operate (enqueue_batch_command_route h j now new_id audit_id header r s).1
  unfolding enqueue_batch_command_route
  batch_route-Recorded header r s = elim (Result-cases (authorize_operator s header operate)) [
    | inr (x, bad) ↦ unchanged (ground (arith, bad))
    | inl (who, good) ↦
        rw (good, enqueue_batch_command_route)
          (audited-Recorded header operate who _ _ _ _ s (enqueue_batch_command now new_id r s)
            (authorize_operator-Entitled s header operate who good)
            (unfold enqueue_batch_command save_batch_command in ground arith)
            (λ x failed. unfold enqueue_batch_command save_batch_command in ground arith))
  ]

  -- A request to create a group or to queue a batch changes nothing, unless its operator is entitled to
  -- operate: no operator token is registered at all, or the request has a registered token whose role
  -- allows it. Then the audit gets one entry, with that operator's name and role.
  pub operator_routes-Recorded :
      (header : Option Text) (g : AdminMachineGroupRequest) (b : AdminBatchCommandRequest)
      (s : AdminServerState)
      → Recorded s header operate (create_machine_group_route h j now new_id audit_id header g s).1
        × Recorded s header operate
            (enqueue_batch_command_route h j now new_id audit_id header b s).1
  operator_routes-Recorded header g b s =
      (group_route-Recorded header g s, batch_route-Recorded header b s)
