-- ===== src/Base/Sort/Sorted.antt =====
-- About `sort`.
use tidyflow.Base.Sort.{sort, insert_sorted}
use tidyflow.Base.{
  Bool, true, false, List, [], ◌∷◌, ◌≡◌, length, All, any, ◌||◌, arith, refl, Bool-cases, inl, inr,
  ◌+◌,
}

module _ {ℓ} {A : Type ℓ} (le : A → A → Bool) where
  abbrev pub IsBelow : A → List A → Type 0
  IsBelow x [] = Unit {0}
  IsBelow x (y ∷ ys) = le x y ≡ true

  abbrev pub IsSorted : List A → Type 0
  IsSorted [] = Unit {0}
  IsSorted (x ∷ xs) = IsBelow x xs × IsSorted xs

  length-insert_sorted : (x : A) (xs : List A) → length (insert_sorted le x xs) ≡ 1 + length xs
  unfolding insert_sorted
  length-insert_sorted x [] = ground arith
  length-insert_sorted x (y ∷ ys) = ground (arith, length-insert_sorted x ys)

  pub length-sort : (xs : List A) → length (sort le xs) ≡ length xs
  unfolding sort
  length-sort [] = refl
  length-sort (x ∷ xs) = ground (arith, length-insert_sorted x (sort le xs), length-sort xs)

  module _ (P : A → Type 0) where
    All-insert_sorted : (x : A) (xs : List A) → P x → All P xs → All P (insert_sorted le x xs)
    unfolding insert_sorted
    All-insert_sorted x [] px h = (px, tt)
    All-insert_sorted x (y ∷ ys) px (py, h) = elim (Bool-cases (le x y)) [
      | inl here ↦ rw (here, insert_sorted) (px, (py, h))
      | inr later ↦ rw (later, insert_sorted) (py, All-insert_sorted x ys px h)
    ]

    pub All-sort : (xs : List A) → All P xs → All P (sort le xs)
    unfolding sort
    All-sort [] h = h
    All-sort (x ∷ xs) (px, h) = All-insert_sorted x (sort le xs) px (All-sort xs h)

  module _ (p : A → Bool) where
    any-insert_sorted : (x : A) (xs : List A) → any p (insert_sorted le x xs) ≡ (p x || any p xs)
    unfolding insert_sorted
    any-insert_sorted x [] = refl
    any-insert_sorted x (y ∷ ys) = ground (arith, any-insert_sorted x ys)

    pub any-sort : (xs : List A) → any p (sort le xs) ≡ any p xs
    unfolding sort
    any-sort [] = refl
    any-sort (x ∷ xs) = ground (arith, any-insert_sorted x (sort le xs), any-sort xs)

  module _ (total : (a b : A) → le a b ≡ false → le b a ≡ true) where
    insert-IsBelow :
        (z x : A) (xs : List A) → le z x ≡ true → IsBelow z xs → IsBelow z (insert_sorted le x xs)
    unfolding insert_sorted
    insert-IsBelow z x [] zx h = zx
    insert-IsBelow z x (y ∷ ys) zx h = elim (Bool-cases (le x y)) [
      | inl here ↦ rw (here, insert_sorted) zx
      | inr later ↦ rw (later, insert_sorted) h
    ]

    insert_sorted-IsSorted : (x : A) (xs : List A) → IsSorted xs → IsSorted (insert_sorted le x xs)
    unfolding insert_sorted
    insert_sorted-IsSorted x [] h = (tt, tt)
    insert_sorted-IsSorted x (y ∷ ys) (below, h) = elim (Bool-cases (le x y)) [
      | inl here ↦ rw (here, insert_sorted) (here, (below, h))
      | inr later ↦
          rw (later, insert_sorted)
            (insert-IsBelow y x ys (total x y later) below, insert_sorted-IsSorted x ys h)
    ]

    pub sort-IsSorted : (xs : List A) → IsSorted (sort le xs)
    unfolding sort
    sort-IsSorted [] = tt
    sort-IsSorted (x ∷ xs) = insert_sorted-IsSorted x (sort le xs) (sort-IsSorted xs)
