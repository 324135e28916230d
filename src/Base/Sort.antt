-- ===== src/Base/Sort.antt =====
-- `sort_by` and `sort_by_key`, which are stable, by an order that is given as a test.
pub mod Sorted
use tidyflow.Base.Text.{Text}
use tidyflow.Base.{Bool, true, false, ◌||◌, ◌&&◌, List, [], ◌∷◌, if◌then◌else◌, ltb, ◌==◌}

module _ {ℓ} {A : Type ℓ} (le : A → A → Bool) where
  -- `x` comes before the first element that it does not exceed.
  insert_sorted : A → List A → List A
  insert_sorted x [] = x ∷ []
  insert_sorted x (y ∷ ys) =
      let rest = insert_sorted x ys in if le x y then x ∷ y ∷ ys else y ∷ rest

  unfoldable pub sort : List A → List A
  unfolding insert_sorted
  sort [] = []
  sort (x ∷ xs) = insert_sorted x (sort xs)

-- `str::cmp`: the order of code points is that of their bytes.
unfoldable pub text_le : Text → Text → Bool
text_le [] t = true
text_le (a ∷ s) [] = false
text_le (a ∷ s) (b ∷ t) = ltb a b || a == b && text_le s t
