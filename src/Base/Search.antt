-- ===== src/Base/Search.antt =====
-- A loop over a range of numbers that returns the first result it meets.
use native.Mathlib.Nat.{add-zero}
use tidyflow.Base.{ℕ, ◌≡◌, Option, none, ◌<◌, some, ◌+◌, Option-cases, suc, arith, inl, zero, inr}

pub next_number : (i k : ℕ) → i + 1 + k ≡ i + suc k
next_number i k = omega arith

module _ {ℓ} {A : Type ℓ} (f : ℕ → Option A) where
  -- The rounds that are left, from the number of the next one.
  unfoldable pub first_from : ℕ → ℕ → Option A
  first_from zero i = none
  first_from (suc rounds) i =
      let rest = first_from rounds (i + 1) in elim (f i) [ none ↦ rest | some a ↦ some a ]

  -- The number `i + o` has the first result of the rounds.
  abbrev pub IsFirst : ℕ → ℕ → A → ℕ → Type ℓ
  IsFirst rounds i a o = (o < rounds) × (f (i + o) ≡ some a) × ((j : ℕ) → j < o → f (i + j) ≡ none)

  shift-IsFirst :
      (rounds i : ℕ) (a : A) (o : ℕ)
      → f i ≡ none
      → IsFirst rounds (i + 1) a o
      → IsFirst (suc rounds) i a (suc o)
  shift-IsFirst rounds i a o miss (lt, hit, before) = (omega arith, at_next o hit, below)
    where
      at_next : (k : ℕ) {r : Option A} → f (i + 1 + k) ≡ r → f (i + suc k) ≡ r
      at_next k e = rw (next_number i k) at e

      below : (j : ℕ) → j < suc o → f (i + j) ≡ none
      below zero h = rw add-zero miss
      below (suc j) h = at_next j (before j (omega arith))

  pub first_from-eq-some :
      (rounds i : ℕ) (a : A) → first_from rounds i ≡ some a → (o : ℕ) × IsFirst rounds i a o
  unfolding first_from
  first_from-eq-some zero i a e = absurd (none-ne-some e)
    where
      none-ne-some : {a : A} → none ≡ some a → ⊥
      none-ne-some e = cc
  first_from-eq-some (suc rounds) i a e = elim (Option-cases (f i)) [
    | inl miss ↦
        let (o, first) = first_from-eq-some rounds (i + 1) a (ground arith) in
        (suc o, shift-IsFirst rounds i a o miss first)
    | inr (b, hit) ↦ (0, (omega arith, rw add-zero (ground arith), λ j h. absurd (omega arith)))
  ]

  pub first_from-eq-none :
      (rounds i : ℕ) → first_from rounds i ≡ none → (j : ℕ) → j < rounds → f (i + j) ≡ none
  unfolding first_from
  first_from-eq-none zero i e j h = absurd (omega arith)
  first_from-eq-none (suc rounds) i e zero h = rw add-zero (ground arith)
  first_from-eq-none (suc rounds) i e (suc j) h =
      rw (next_number i j) at (first_from-eq-none rounds (i + 1) (ground arith) j (omega arith))

  -- A number in range that has a result makes the loop return one.
  pub first_from-hit :
      (rounds i o : ℕ) {a : A}
      → o < rounds
      → f (i + o) ≡ some a
      → (b : A) × (first_from rounds i ≡ some b)
  first_from-hit rounds i o h e = elim (Option-cases (first_from rounds i)) [
    | inl nothing ↦ absurd (cc (first_from-eq-none rounds i nothing o h))
    | inr found ↦ found
  ]

  -- The first number in range that has a result gives the loop's.
  pub first_from-IsFirst :
      (rounds i o : ℕ) (a : A) → IsFirst rounds i a o → first_from rounds i ≡ some a
  unfolding first_from
  first_from-IsFirst zero i o a (short, here, before) = absurd (omega (arith, short))
  first_from-IsFirst (suc rounds) i zero a (short, here, before) =
      let now : f i ≡ some a = rw add-zero at here in ground (arith, now)
  first_from-IsFirst (suc rounds) i (suc o) a (short, here, before) =
      let miss : f i ≡ none = rw add-zero at (before 0 (omega arith)) in
      let rest = first_from-IsFirst rounds (i + 1) o a (
        omega (arith, short),
        rw (next_number i o) here,
        λ k lt. rw (next_number i k) (before (suc k) (omega (arith, lt))),
      ) in
      ground (arith, miss, rest)
