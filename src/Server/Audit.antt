-- ===== src/Server/Audit.antt =====
-- The central audit: AdminCentralAuditQuery of crates/autoflow-domain/src/admin.rs, and in lib.rs the
-- entries, their filter and their pages.
pub mod Pages
use tidyflow.Base.Int.{ℤ, pos_part}
use tidyflow.Base.Text.{Text, codes, contains, to_ascii_lowercase, eq_ignore_ascii_case}
use tidyflow.Base.Sort.{sort}
use tidyflow.Domain.Admin.Envelope.{join}
use tidyflow.Base.{
  ℕ, List, [], ◌∷◌, ◌++◌, zero, suc, Option, none, some, Bool, true, false, if◌then◌else◌, ◌&&◌,
  ltb, leb, length,
}
use tidyflow.Server.State.{
  AdminServerState, AdminCentralAuditEntry, AdminCentralAuditStatus, AdminOperatorContext, accepted,
  rejected, failed,
}
use tidyflow.Server.Names.{optional_text}

pub record AdminCentralAuditQuery : Type 0 where
  pub search : Option Text
  pub actor : Option Text
  pub action : Option Text
  pub status : Option AdminCentralAuditStatus
  pub limit : ℤ
  pub offset : ℤ

-- A normalised query: its limit and its offset are not negative.
pub record NormalizedQuery : Type 0 where
  pub search : Option Text
  pub actor : Option Text
  pub action : Option Text
  pub status : Option AdminCentralAuditStatus
  pub limit : ℕ
  pub offset : ℕ

pub record AdminCentralAuditPage : Type 0 where
  pub entries : List AdminCentralAuditEntry
  pub total : ℕ
  pub limit : ℕ
  pub offset : ℕ

-- `clamp(1, 1_000)`.
clamp_limit : ℕ → ℕ
clamp_limit n = if ltb n 1 then 1 else if ltb 1000 n then 1000 else n

unfoldable pub normalized : AdminCentralAuditQuery → NormalizedQuery
unfolding clamp_limit
normalized q = record {
  search = optional_text q.search;
  actor = optional_text q.actor;
  action = optional_text q.action;
  status = q.status;
  limit = clamp_limit (pos_part q.limit);
  offset = pos_part q.offset;
}

same_status : AdminCentralAuditStatus → AdminCentralAuditStatus → Bool
same_status accepted accepted = true
same_status rejected rejected = true
same_status failed failed = true
same_status _ _ = false

matches_text : Option Text → Text → Bool
matches_text none t = true
matches_text (some wanted) t = eq_ignore_ascii_case t wanted

matches_status : Option AdminCentralAuditStatus → AdminCentralAuditStatus → Bool
matches_status none status = true
matches_status (some wanted) status = same_status status wanted

or_empty : Option Text → Text
or_empty none = []
or_empty (some t) = t

matches_search : Option Text → AdminCentralAuditEntry → Bool
unfolding or_empty
matches_search none e = true
matches_search (some search) e =
    contains
      (to_ascii_lowercase
        (join b' ' (e.actor ∷ e.action ∷ e.target ∷ e.message ∷ or_empty e.details ∷ [])))
      (to_ascii_lowercase search)

unfoldable pub central_audit_entry_matches : NormalizedQuery → AdminCentralAuditEntry → Bool
unfolding matches_text matches_status matches_search same_status or_empty
central_audit_entry_matches q e =
    matches_text q.actor e.actor
    && matches_text q.action e.action
    && matches_status q.status e.status
    && matches_search q.search e

unfoldable pub filter_central_audit_entries :
    List AdminCentralAuditEntry → NormalizedQuery → List AdminCentralAuditEntry
filter_central_audit_entries [] q = []
filter_central_audit_entries (e ∷ es) q =
    let rest = filter_central_audit_entries es q in
    if central_audit_entry_matches q e then e ∷ rest else rest

module _ {ℓ} {A : Type ℓ} where
  unfoldable pub take : ℕ → List A → List A
  take zero xs = []
  take (suc n) [] = []
  take (suc n) (x ∷ xs) = x ∷ take n xs

  unfoldable pub skip : ℕ → List A → List A
  skip zero xs = xs
  skip (suc n) [] = []
  skip (suc n) (x ∷ xs) = skip n xs

unfoldable pub page_central_audit_entries :
    List AdminCentralAuditEntry → NormalizedQuery → AdminCentralAuditPage
page_central_audit_entries es q = record {
  entries = take q.limit (skip q.offset es);
  total = length es;
  limit = q.limit;
  offset = q.offset;
}

-- The newest first.
unfoldable pub query_central_audit :
    AdminCentralAuditQuery → AdminServerState → AdminCentralAuditPage
query_central_audit query s =
    let q = normalized query in
    page_central_audit_entries
      (sort (λ a b. leb b.created_at a.created_at) (filter_central_audit_entries s.central_audit q))
      q

unfoldable pub central_audit_entry :
    ℕ
    → ℕ
    → AdminOperatorContext
    → Text
    → Text
    → AdminCentralAuditStatus
    → Text
    → Option Text
    → AdminCentralAuditEntry
central_audit_entry now new_id operator action target status message details = record {
  id = new_id;
  actor = operator.actor;
  role = operator.role;
  action = action;
  target = target;
  status = status;
  message = message;
  details = details;
  created_at = now;
}

unfoldable pub agent_audit_context : Text → AdminOperatorContext
agent_audit_context id = record { actor = codes "agent:" ++ id; role = none }

unfoldable pub append_central_audit : AdminCentralAuditEntry → AdminServerState → AdminServerState
append_central_audit e s = record s { central_audit = s.central_audit ++ e ∷ [] }
