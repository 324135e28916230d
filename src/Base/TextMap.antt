-- ===== src/Base/TextMap.antt =====
-- `HashMap<String, V>` and `HashSet<String>`.
use tidyflow.Base.Text.{Text, text_eq}
use tidyflow.Base.{Bool, List, [], ◌∷◌, Option, none, some, if◌then◌else◌, any}

module _ {ℓ} {V : Type ℓ} where
  unfoldable pub lookup : Text → List (Text × V) → Option V
  lookup k [] = none
  lookup k ((j, v) ∷ m) = let rest = lookup k m in if text_eq j k then some v else rest

  unfoldable pub without : Text → List (Text × V) → List (Text × V)
  without k [] = []
  without k ((j, v) ∷ m) = let rest = without k m in if text_eq j k then rest else (j, v) ∷ rest

  unfoldable pub store : Text → V → List (Text × V) → List (Text × V)
  unfolding without
  store k v m = (k, v) ∷ without k m

-- `contains`, for a set or a vector of texts.
unfoldable pub contains_text : Text → List Text → Bool
contains_text t list = any (λ x. text_eq x t) list
