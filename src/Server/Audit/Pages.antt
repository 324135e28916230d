-- ===== src/Server/Audit/Pages.antt =====
-- About the pages of the central audit.
use tidyflow.Base.Sort.{sort}
use tidyflow.Server.State.{AdminCentralAuditEntry, AdminServerState}
use tidyflow.Server.Audit.{
  take, skip, normalized, query_central_audit, filter_central_audit_entries,
  central_audit_entry_matches, page_central_audit_entries, NormalizedQuery, AdminCentralAuditPage,
  clamp_limit, AdminCentralAuditQuery,
}
use tidyflow.Base.Sort.Sorted.{IsSorted, sort-IsSorted, length-sort, All-sort, IsBelow}
use tidyflow.Base.{
  Bool, true, List, [], ◌∷◌, ◌≡◌, length, All, arith, Bool-cases, inl, inr, suc, zero, ℕ, ◌-◌,
  if◌then◌else◌, leb, ◌≤◌,
}

module _ {ℓ} {A : Type ℓ} where
  length-skip : (n : ℕ) (xs : List A) → length (skip n xs) ≡ length xs - n
  unfolding skip
  length-skip zero xs = ground arith
  length-skip (suc n) [] = ground arith
  length-skip (suc n) (x ∷ xs) = ground (arith, length-skip n xs)

  length-take :
      (n : ℕ) (xs : List A) → length (take n xs) ≡ (if leb n (length xs) then n else length xs)
  unfolding take
  length-take zero xs = ground arith
  length-take (suc n) [] = ground arith
  length-take (suc n) (x ∷ xs) = ground (arith, length-take n xs)

  All-skip : (P : A → Type 0) (n : ℕ) (xs : List A) → All P xs → All P (skip n xs)
  unfolding skip
  All-skip P zero xs h = h
  All-skip P (suc n) [] h = h
  All-skip P (suc n) (x ∷ xs) (px, h) = All-skip P n xs h

  All-take : (P : A → Type 0) (n : ℕ) (xs : List A) → All P xs → All P (take n xs)
  unfolding take
  All-take P zero xs h = tt
  All-take P (suc n) [] h = h
  All-take P (suc n) (x ∷ xs) (px, h) = (px, All-take P n xs h)

  module _ (le : A → A → Bool) where
    skip-IsSorted : (n : ℕ) (xs : List A) → IsSorted le xs → IsSorted le (skip n xs)
    unfolding skip
    skip-IsSorted zero xs h = h
    skip-IsSorted (suc n) [] h = h
    skip-IsSorted (suc n) (x ∷ xs) (below, h) = skip-IsSorted n xs h

    take-IsBelow : (x : A) (n : ℕ) (xs : List A) → IsBelow le x xs → IsBelow le x (take n xs)
    unfolding take
    take-IsBelow x zero xs h = tt
    take-IsBelow x (suc n) [] h = h
    take-IsBelow x (suc n) (y ∷ ys) h = h

    take-IsSorted : (n : ℕ) (xs : List A) → IsSorted le xs → IsSorted le (take n xs)
    unfolding take
    take-IsSorted zero xs h = tt
    take-IsSorted (suc n) [] h = h
    take-IsSorted (suc n) (x ∷ xs) (below, h) = (take-IsBelow x n xs below, take-IsSorted n xs h)

filter-matches :
    (q : NormalizedQuery) (es : List AdminCentralAuditEntry)
    → All (λ e. central_audit_entry_matches q e ≡ true) (filter_central_audit_entries es q)
unfolding filter_central_audit_entries
filter-matches q [] = tt
filter-matches q (e ∷ es) = elim (Bool-cases (central_audit_entry_matches q e)) [
  | inl hit ↦ rw (hit, filter_central_audit_entries) (hit, filter-matches q es)
  | inr miss ↦ rw (miss, filter_central_audit_entries) (filter-matches q es)
]

abbrev pub is_newer : AdminCentralAuditEntry → AdminCentralAuditEntry → Bool
is_newer a b = leb b.created_at a.created_at

-- What a page holds: its limit is from 1 to 1000, its total counts the entries of the audit that match
-- the query, it has as many of them as are left after its offset and as its limit allows, each of its
-- entries matches, and the newest come first.
pub record IsPage (s : AdminServerState) (q : NormalizedQuery) (page : AdminCentralAuditPage)
    : Type 0 where
  pub at_least : 1 ≤ page.limit
  pub at_most : page.limit ≤ 1000
  pub total : page.total ≡ length (filter_central_audit_entries s.central_audit q)
  pub size :
      length page.entries
      ≡ (if leb page.limit (page.total - page.offset) then page.limit else page.total - page.offset)
  pub matching : All (λ e. central_audit_entry_matches q e ≡ true) page.entries
  pub newest_first : IsSorted is_newer page.entries

-- For any query, also of a negative or a large limit or offset, the answer is a page of the normalised
-- query: a limit from 1 to 1000, the total number of the entries that match, as many of them as the limit
-- and the offset leave, each matching, the newest first.
pub query_central_audit-IsPage :
    (query : AdminCentralAuditQuery) (s : AdminServerState)
    → IsPage s (normalized query) (query_central_audit query s)
unfolding query_central_audit page_central_audit_entries normalized clamp_limit
query_central_audit-IsPage query s =
    let q = normalized query in
    let found = filter_central_audit_entries s.central_audit q in
    let all = sort is_newer found in
    let rest = skip q.offset all in
    let counted = length-sort is_newer found in
    record {
      at_least = ground arith;
      at_most = ground arith;
      total = counted;
      size = ground (arith, length-take q.limit rest, length-skip q.offset all);
      matching =
          All-take _ q.limit rest (
            All-skip _ q.offset all (All-sort is_newer _ found (filter-matches q s.central_audit)));
      newest_first = take-IsSorted is_newer q.limit rest (
          skip-IsSorted is_newer q.offset all
            (sort-IsSorted is_newer (λ a b h. ground arith) found));
    }
