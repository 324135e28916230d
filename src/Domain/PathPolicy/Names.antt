-- ===== src/Domain/PathPolicy/Names.antt =====
-- About the validation of names and relative paths.
use tidyflow.Base.Text.{split, Text, contains_char, text_eq, trim_by, text_eq_iff}
use tidyflow.Domain.PathPolicy.{
  validate_relative_path, validate_components, validate_file_name, is_invalid_char, slash,
  unify_separators, dot, dot_dot, is_slash,
}
use mathlib.Core.List.{tail, append_assoc}
use tidyflow.Base.{
  ℕ, List, any, ◌≡◌, ok, false, ◌∷◌, All, if◌then◌else◌, ◌++◌, [], arith, is_empty, refl, ◌≢◌, ◌||◌,
  Bool-cases, inl, inr, All-append, ◌∙◌, sym,
}

-- Where a path leads from a directory, both as the names from the innermost outwards: `.` and empty
-- components stay, `..` leaves the directory, and any other name enters one.
unfoldable pub resolve : List Text → List Text → List Text
resolve stack [] = stack
resolve stack (p ∷ ps) =
    resolve
      (if is_empty p || text_eq p dot
        then stack
        else if text_eq p dot_dot
        then tail stack
        else p ∷ stack)
      ps

split_none : (sep : ℕ) (s : Text) → contains_char sep s ≡ false → split sep s ≡ s ∷ []
unfolding split
split_none sep [] h = refl
split_none sep (c ∷ s) h = ground (arith, split_none sep s)

no_slash : (s : Text) → any is_invalid_char s ≡ false → contains_char slash s ≡ false
unfolding is_invalid_char
no_slash [] h = refl
no_slash (c ∷ s) h = ground (arith, no_slash s)

-- A valid file name is one component of a path, and not one of the two that move elsewhere.
pub validate_file_name-component :
    (name : Text)
    → validate_file_name name ≡ ok tt
    → (split slash name ≡ name ∷ []) × (name ≢ []) × (name ≢ dot) × (name ≢ dot_dot)
unfolding validate_file_name
validate_file_name-component name h = (
  split_none slash name (no_slash name (ground arith)),
  ground arith,
  differs dot (ground arith),
  differs dot_dot (ground arith),
)
  where
    differs : (other : Text) → text_eq name other ≡ false → name ≢ other
    differs other no_match e = cc (no_match, (text_eq_iff name other).1 e)

validate_components-resolve :
    (path : Text) (ps stack : List Text)
    → validate_components path ps ≡ ok tt
    → (names : List Text) × All (λ n. validate_file_name n ≡ ok tt) names
      × (resolve stack ps ≡ names ++ stack)
unfolding validate_components resolve
validate_components-resolve path [] stack h = ([], tt, refl)
validate_components-resolve path (p ∷ ps) stack h =
    elim (Bool-cases (is_empty p || text_eq p dot)) [
      | inl stays ↦ rw stays (validate_components-resolve path ps stack (ground arith))
      | inr moves ↦
          let up : text_eq p dot_dot ≡ false = ground arith in
          let enters : resolve stack (p ∷ ps) ≡ resolve (p ∷ stack) ps =
            rw (moves, resolve) (rw (up, resolve) refl) in
          let (names, valid, e) = validate_components-resolve path ps (p ∷ stack) (ground arith) in
          (
            names ++ p ∷ [],
            All-append _ names (p ∷ []) valid (ground arith, tt),
            enters ∙ e ∙ sym (append_assoc names (p ∷ []) stack),
          )
    ]

-- A valid relative path never leads out of the directory it starts from: followed from any
-- directory, with the separators at its ends taken off, it ends at or below that directory, through names that
-- are valid file names.
pub validate_relative_path-inside :
    (path : Text) (root : List Text)
    → validate_relative_path path ≡ ok tt
    → (names : List Text) × All (λ n. validate_file_name n ≡ ok tt) names
      × (resolve root (split slash (trim_by is_slash (unify_separators path))) ≡ names ++ root)
unfolding validate_relative_path
validate_relative_path-inside path root h =
    validate_components-resolve path (split slash (trim_by is_slash (unify_separators path))) root
      (ground arith)
