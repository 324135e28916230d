-- ===== src/Domain/Tokenizer/Transforms/Cases.antt =====
-- The transforms of the case of letters, of crates/autoflow-domain/src/tokenizer/mod.rs.
use tidyflow.Base.Text.{Text, replace_char}
use tidyflow.Base.{
  ℕ, List, [], ◌∷◌, ◌++◌, Bool, true, false, ◌&&◌, ◌||◌, ◌==◌, not, if◌then◌else◌, is_empty,
  is_some_and, Option, none, some,
}

pub record Unicode : Type 0 where
  -- `str::to_uppercase` and `str::to_lowercase`, and those of a character.
  pub uppercase : Text → Text
  pub lowercase : Text → Text
  pub char_upper : ℕ → Text
  pub char_lower : ℕ → Text
  pub is_alphanumeric : ℕ → Bool
  pub is_uppercase : ℕ → Bool
  pub is_lowercase : ℕ → Bool
  pub is_numeric : ℕ → Bool
  -- `Regex::replace_all` with the pattern, the input and the replacement; and `Regex::find`.
  pub replace_all : Text → Text → Text → Text
  pub find : Text → Text → Option Text

module _ (u : Unicode) where
  unfoldable pub capitalized : Text → Text
  capitalized input = elim (u.lowercase input) [ [] ↦ [] | c ∷ s ↦ u.char_upper c ++ s ]

  title_from : Bool → Text → Text
  title_from word_start [] = []
  title_from word_start (c ∷ s) =
      (if u.is_alphanumeric c && word_start then u.char_upper c else c ∷ [])
      ++ title_from (if u.is_alphanumeric c then false else if c == 39 then word_start else true) s

  unfoldable pub title_case : Text → Text
  unfolding title_from
  title_case input = title_from true (u.lowercase input)

  starts_new_word : Option ℕ → ℕ → Text → Text → Bool
  starts_new_word previous c next current =
      u.is_uppercase c
      && not (is_empty current)
      && (is_some_and (λ p. u.is_lowercase p || u.is_numeric p) previous
          || is_some_and u.is_uppercase previous
            && elim next [ [] ↦ false | n ∷ s ↦ u.is_lowercase n ])

  push_word : Text → List Text → List Text
  push_word current rest = if is_empty current then rest else current ∷ rest

  words_from : Option ℕ → Text → Text → List Text
  unfolding starts_new_word push_word
  words_from previous current [] = push_word current []
  words_from previous current (c ∷ s) =
      let splits = starts_new_word previous c s current in
      let pushed =
        if u.is_alphanumeric c then (if splits then [] else current) ++ u.char_lower c else [] in
      let rest = words_from (some c) pushed s in
      if u.is_alphanumeric c
      then (if splits then current ∷ rest else rest)
      else push_word current rest

  unfoldable pub words_for_case : Text → List Text
  unfolding words_from
  words_for_case input = words_from none [] input

  join_words : List Text → Text
  join_words [] = []
  join_words (w ∷ []) = w
  join_words (w ∷ x ∷ ws) = w ++ b'_' ∷ join_words (x ∷ ws)

  unfoldable pub to_snake : Text → Text
  unfolding words_for_case join_words
  to_snake input = join_words (words_for_case input)

  capitalized_words : List Text → Text
  unfolding capitalized
  capitalized_words [] = []
  capitalized_words (w ∷ ws) = capitalized w ++ capitalized_words ws

  unfoldable pub to_camel : Text → Text
  unfolding words_for_case capitalized_words
  to_camel input = elim (words_for_case input) [
    | [] ↦ []
    | first ∷ rest ↦ first ++ capitalized_words rest
  ]

  unfoldable pub to_pascal : Text → Text
  unfolding words_for_case capitalized_words
  to_pascal input = capitalized_words (words_for_case input)

  unfoldable pub to_kebab : Text → Text
  unfolding to_snake
  to_kebab input = replace_char b'_' b'-' (to_snake input)
