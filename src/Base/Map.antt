-- ===== src/Base/Map.antt =====
-- `HashMap<Uuid, V>` and `HashSet<Uuid>` over numbers that stand for the identifiers.
use tidyflow.Base.{
  ℕ, ◌≡◌, Bool, false, ◌||◌, List, [], ◌∷◌, Option, none, some, arith, ◌==◌, if◌then◌else◌, is_some,
}

module _ {ℓ} {V : Type ℓ} where
  unfoldable pub get : ℕ → List (ℕ × V) → Option V
  get k [] = none
  get k ((j, v) ∷ m) = if j == k then some v else get k m

  unfoldable pub remove : ℕ → List (ℕ × V) → List (ℕ × V)
  remove k [] = []
  remove k ((j, v) ∷ m) = let rest = remove k m in if j == k then rest else (j, v) ∷ rest

  unfoldable pub insert : ℕ → V → List (ℕ × V) → List (ℕ × V)
  unfolding remove
  insert k v m = (k, v) ∷ remove k m

  abbrev pub contains_key : ℕ → List (ℕ × V) → Bool
  contains_key k m = is_some (get k m)

  unfoldable pub has_value : (V → Bool) → List (ℕ × V) → Bool
  has_value p [] = false
  has_value p ((j, v) ∷ m) = p v || has_value p m

  pub get-remove :
      (k j : ℕ) (m : List (ℕ × V)) → get j (remove k m) ≡ (if k == j then none else get j m)
  unfolding get remove
  get-remove k j [] = ground arith
  get-remove k j ((i, v) ∷ m) = ground (arith, get-remove k j m)

  pub get-insert :
      (k j : ℕ) (v : V) (m : List (ℕ × V))
      → get j (insert k v m) ≡ (if k == j then some v else get j m)
  unfolding get insert
  get-insert k j v m = ground (arith, get-remove k j m)

  pub ruleset map_laws = (get-remove, get-insert)

unfoldable pub mem : ℕ → List ℕ → Bool
mem k [] = false
mem k (j ∷ s) = j == k || mem k s

unfoldable pub delete : ℕ → List ℕ → List ℕ
delete k [] = []
delete k (j ∷ s) = let rest = delete k s in if j == k then rest else j ∷ rest

unfoldable pub add : ℕ → List ℕ → List ℕ
unfolding mem
add k s = if mem k s then s else k ∷ s

pub mem-delete : (k j : ℕ) (s : List ℕ) → mem j (delete k s) ≡ (if k == j then false else mem j s)
unfolding mem delete
mem-delete k j [] = ground arith
mem-delete k j (i ∷ s) = ground (arith, mem-delete k j s)
