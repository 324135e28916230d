-- ===== src/Domain/FileFilter/Presets.antt =====
-- Which patterns the expansion of the presets gives.
use tidyflow.Domain.FileFilter.{
  holds, push_new, push_presets, expanded_exclude_patterns, FileFilter, built_in_exclude_presets,
}
use tidyflow.Base.Text.{Text, text_eq, text_eq_iff}
use tidyflow.Base.{
  List, ◌≡◌, if◌then◌else◌, ◌++◌, ◌∷◌, ◌||◌, [], arith, refl, Bool-cases, inl, inr, ◌∙◌, Bool,
  false, ◌&&◌,
}

holds-append : (p : Text) (xs ys : List Text) → holds p (xs ++ ys) ≡ (holds p xs || holds p ys)
unfolding holds
holds-append p [] ys = refl
holds-append p (x ∷ xs) ys = ground (arith, holds-append p xs ys)

holds-cons : (p x : Text) (xs : List Text) → holds p (x ∷ xs) ≡ (text_eq x p || holds p xs)
unfolding holds
holds-cons p x xs = refl

holds-nil : (p : Text) → holds p [] ≡ false
unfolding holds
holds-nil p = refl

-- A pattern that is pushed only if it is missing is there afterwards, and nothing else changes.
holds-push :
    (x p : Text) (patterns : List Text)
    → holds x (if holds p patterns then patterns else patterns ++ p ∷ [])
      ≡ (holds x patterns || text_eq p x)
holds-push x p patterns = elim (Bool-cases (holds p patterns)) [
  | inl old ↦ rw old (ground (arith, text_eq_iff p x, old))
  | inr new ↦
      rw new (holds-append x patterns (p ∷ []) ∙ ground (arith, holds-cons x p [], holds-nil x))
]

holds-push_new :
    (x : Text) (patterns ps : List Text)
    → holds x (push_new patterns ps) ≡ (holds x patterns || holds x ps)
unfolding push_new
holds-push_new x patterns [] = ground (arith, holds-nil x)
holds-push_new x patterns (p ∷ ps) = ground (
  arith,
  holds-push_new x (if holds p patterns then patterns else patterns ++ p ∷ []) ps,
  holds-push x p patterns,
  holds-cons x p ps,
)

-- A preset whose identifier is selected lists the pattern.
abbrev pub in_presets : List Text → List (Text × List Text) → Text → Bool
in_presets ids [] x = false
in_presets ids ((id, ps) ∷ presets) x = (holds id ids && holds x ps) || in_presets ids presets x

holds-push_presets :
    (x : Text) (ids : List Text) (presets : List (Text × List Text)) (patterns : List Text)
    → holds x (push_presets ids presets patterns) ≡ (holds x patterns || in_presets ids presets x)
unfolding push_presets
holds-push_presets x ids [] patterns = ground arith
holds-push_presets x ids ((id, ps) ∷ presets) patterns = ground (
  arith,
  holds-push_presets x ids presets (if holds id ids then push_new patterns ps else patterns),
  holds-push_new x patterns ps,
)

-- A pattern is among the expanded ones exactly if the filter lists it, or a built-in preset that the
-- filter selects does.
pub expanded_exclude_patterns_iff :
    (f : FileFilter) (x : Text)
    → holds x (expanded_exclude_patterns f)
      ≡ (holds x f.exclude_patterns || in_presets f.exclude_preset_ids built_in_exclude_presets x)
unfolding expanded_exclude_patterns
expanded_exclude_patterns_iff f x =
    holds-push_presets x f.exclude_preset_ids built_in_exclude_presets f.exclude_patterns
