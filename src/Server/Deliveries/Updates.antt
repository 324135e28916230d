-- ===== src/Server/Deliveries/Updates.antt =====
-- About the states of a command's deliveries when one delivery is changed.
use tidyflow.Domain.Admin.{pending, running, AdminQueuedCommandStatus}
use tidyflow.Server.Deliveries.{
  states_of, update_first, find_first, aggregate_command_status, target_results, is_status, is_open,
}
use tidyflow.Server.State.{AdminCommandDelivery, AdminCommandDeliveryState}
use tidyflow.Base.{
  ℕ, ◌≡◌, List, [], ◌∷◌, ◌++◌, ◌==◌, some, Bool, true, false, arith, refl, all, any, Bool-cases,
  inl, inr, All,
}

pub states_of-append :
    (id : ℕ) (xs ys : List AdminCommandDelivery)
    → states_of id (xs ++ ys) ≡ states_of id xs ++ states_of id ys
unfolding states_of
states_of-append id [] ys = refl
states_of-append id (x ∷ xs) ys = ground (arith, states_of-append id xs ys)

abbrev pub all_pending : List AdminCommandDeliveryState → Bool
all_pending = all (λ s. is_status s.status pending)

module _ (p : AdminCommandDelivery → Bool) (f : AdminCommandDelivery → AdminCommandDelivery)
    (same_id : (d : AdminCommandDelivery) → (f d).command_id ≡ d.command_id) where
  -- Another command's deliveries stay.
  pub states_of-update_other :
      (id : ℕ) (ds : List AdminCommandDelivery) (d : AdminCommandDelivery)
      → find_first p ds ≡ some d
      → (d.command_id == id) ≡ false
      → states_of id (update_first p f ds) ≡ states_of id ds
  unfolding states_of find_first update_first
  states_of-update_other id [] d e other = refl
  states_of-update_other id (x ∷ ds) d e other =
      ground (arith, same_id x, states_of-update_other id ds d)

  pub update-not_pending :
      (id : ℕ) (ds : List AdminCommandDelivery) (d : AdminCommandDelivery)
      → find_first p ds ≡ some d
      → (d.command_id == id) ≡ true
      → is_status (f d).status pending ≡ false
      → all_pending (states_of id (update_first p f ds)) ≡ false
  unfolding states_of find_first update_first
  update-not_pending id [] d e here closed = cc
  update-not_pending id (x ∷ ds) d e here closed =
      ground (arith, same_id x, update-not_pending id ds d)

  update-open :
      (id : ℕ) (ds : List AdminCommandDelivery) (d : AdminCommandDelivery)
      → find_first p ds ≡ some d
      → (d.command_id == id) ≡ true
      → (f d).status ≡ running
      → any (λ s. is_open s.status) (states_of id (update_first p f ds)) ≡ true
  unfolding states_of find_first update_first is_open
  update-open id [] d e here busy = cc
  update-open id (x ∷ ds) d e here busy = ground (arith, same_id x, update-open id ds d)

  pub aggregate-running :
      (id : ℕ) (ds : List AdminCommandDelivery) (d : AdminCommandDelivery)
      → find_first p ds ≡ some d
      → (d.command_id == id) ≡ true
      → (f d).status ≡ running
      → aggregate_command_status (states_of id (update_first p f ds)) ≡ running
  unfolding aggregate_command_status
  aggregate-running id ds d e here busy = ground (arith, update-open id ds d e here busy)

  -- A pending delivery that starts has a result no more than before.
  pub target_results-running :
      (id : ℕ) (ds : List AdminCommandDelivery) (d : AdminCommandDelivery)
      → find_first p ds ≡ some d
      → d.status ≡ pending
      → (f d).status ≡ running
      → target_results (states_of id (update_first p f ds)) ≡ target_results (states_of id ds)
  unfolding states_of find_first update_first target_results
  target_results-running id [] d e idle busy = refl
  target_results-running id (x ∷ ds) d e idle busy =
      ground (arith, same_id x, target_results-running id ds d)

module _ (P : AdminCommandDelivery → Type 0) (p : AdminCommandDelivery → Bool)
    (f : AdminCommandDelivery → AdminCommandDelivery)
    (keeps : (d : AdminCommandDelivery) → P d → P (f d)) where
  pub All-update_first : (ds : List AdminCommandDelivery) → All P ds → All P (update_first p f ds)
  unfolding update_first
  All-update_first [] h = h
  All-update_first (x ∷ ds) (first, rest) = elim (Bool-cases (p x)) [
    | inl hit ↦ rw (hit, update_first) (keeps x first, rest)
    | inr miss ↦ rw (miss, update_first) (first, All-update_first ds rest)
  ]

pub All-mono :
    (P Q : AdminCommandDelivery → Type 0)
    → ((d : AdminCommandDelivery) → P d → Q d)
    → (ds : List AdminCommandDelivery) → All P ds
    → All Q ds
All-mono P Q into [] h = h
All-mono P Q into (x ∷ ds) (first, rest) = (into x first, All-mono P Q into ds rest)

pub find_first-holds :
    (p : AdminCommandDelivery → Bool) (ds : List AdminCommandDelivery) (d : AdminCommandDelivery)
    → find_first p ds ≡ some d
    → p d ≡ true
unfolding find_first
find_first-holds p [] d e = cc
find_first-holds p (x ∷ ds) d e = elim (Bool-cases (p x)) [
  | inl hit ↦ let same : x ≡ d = ground (arith, hit) in rw same at hit
  | inr miss ↦ find_first-holds p ds d (ground (arith, miss))
]

pub All-find_first :
    (P : AdminCommandDelivery → Type 0) (p : AdminCommandDelivery → Bool)
    (ds : List AdminCommandDelivery) (d : AdminCommandDelivery)
    → All P ds
    → find_first p ds ≡ some d
    → P d
unfolding find_first
All-find_first P p [] d h e = cc
All-find_first P p (x ∷ ds) d (first, rest) e = elim (Bool-cases (p x)) [
  | inl hit ↦ let same : x ≡ d = ground (arith, hit) in rw same at first
  | inr miss ↦ All-find_first P p ds d rest (ground (arith, miss))
]

pub is_status→eq : (a b : AdminQueuedCommandStatus) → is_status a b ≡ true → a ≡ b
unfolding is_status
is_status→eq a b h = ground arith
