-- ===== src/Server/Access.antt =====
-- `authorize_operator`, `operator_role_allows` and `ensure_enrollment_token` of lib.rs.
use tidyflow.Domain.Admin.{AdminOperatorRole, admin, operator, viewer}
use tidyflow.Base.Text.{Text, trim, codes}
use tidyflow.Base.TextMap.{contains_text, lookup}
use tidyflow.Base.{
  ℕ, [], ◌∷◌, ◌++◌, Result, ok, err, Option, none, some, Bool, true, false, if◌then◌else◌, is_empty,
  not, reverse, bail_if, ◌>>◌, suc, zero,
}
use tidyflow.Server.State.{
  AdminServerState, AdminServerError, AdminPermission, enrollment_not_configured,
  AdminOperatorContext, operator_auth_required, invalid_enrollment_token, operator_forbidden, view,
  operate, administer,
}

unfoldable pub operator_role_allows : AdminOperatorRole → AdminPermission → Bool
operator_role_allows admin permission = true
operator_role_allows operator view = true
operator_role_allows operator operate = true
operator_role_allows operator administer = false
operator_role_allows viewer view = true
operator_role_allows viewer operate = false
operator_role_allows viewer administer = false

take : ℕ → Text → Text
take zero s = []
take (suc n) [] = []
take (suc n) (c ∷ s) = c ∷ take n s

-- The last six characters of the token are shown.
unfoldable pub operator_actor : Text → Text
unfolding take
operator_actor token = codes "operator:" ++ reverse (take 6 (reverse token))

unfoldable pub authorize_role :
    Text → AdminPermission → Option AdminOperatorRole → Result AdminServerError AdminOperatorContext
authorize_role token permission none = err operator_auth_required
authorize_role token permission (some role) =
    if not (operator_role_allows role permission)
    then err operator_forbidden
    else ok (record { actor = operator_actor token; role = some role })

-- `header` is the text of the header `x-autoflow-admin-token`, if it has one.
unfoldable pub authorize_operator :
    AdminServerState → Option Text → AdminPermission → Result AdminServerError AdminOperatorContext
authorize_operator s header permission =
    if is_empty s.operator_tokens
    then ok (record { actor = codes "dev-admin"; role = some admin })
    else elim header [
      | none ↦ err operator_auth_required
      | some value ↦
          if is_empty (trim value)
          then err operator_auth_required
          else authorize_role (trim value) permission (lookup (trim value) s.operator_tokens)
    ]

unfoldable pub ensure_enrollment_token :
    AdminServerState → Text → Result AdminServerError (Unit {0})
ensure_enrollment_token s token =
    bail_if (is_empty s.enrollment_tokens) enrollment_not_configured
    >> bail_if (not (contains_text token s.enrollment_tokens)) invalid_enrollment_token
