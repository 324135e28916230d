-- ===== src/Domain/Tokenizer/Transforms.antt =====
-- The transforms of crates/autoflow-domain/src/tokenizer/mod.rs. What the standard library knows of
-- Unicode, and the regex library with its patterns, are parameters.
mod Invocation
mod Cases
pub mod Sanitize
pub mod Sanitized
pub use tidyflow.Domain.Tokenizer.Transforms.Invocation.{
  TokenError, TransformInvocation, invalid_transform, unknown_regex_preset, unknown_token,
  unknown_transform,
}
unfoldable pub use tidyflow.Domain.Tokenizer.Transforms.Invocation.{
  error_text, parse_invocation, require_no_args, skip, skip_chars, slice_chars, take, take_chars,
}
pub use tidyflow.Domain.Tokenizer.Transforms.Cases.{Unicode}
unfoldable pub use tidyflow.Domain.Tokenizer.Transforms.Cases.{
  capitalized, title_case, to_camel, to_kebab, to_pascal, to_snake, words_for_case,
}
use tidyflow.Domain.Tokenizer.Transforms.Sanitize.{sanitize_windows_filename}
use tidyflow.Domain.PathPolicy.{dot, is_reserved, windows_stem}
use tidyflow.Domain.Tokenizer.{normalize_identifier}
use tidyflow.Base.Text.{
  Text, codes, contains_char, ends_with_char, is_control, is_whitespace, msg, replace_char, split,
  text_eq, trim, trim_by,
}
use tidyflow.Base.TextMap.{contains_text, lookup}
use tidyflow.Base.{
  ℕ, zero, suc, List, [], ◌∷◌, ◌++◌, ◌+◌, ◌-◌, ◌*◌, ◌^◌, Bool, true, false, ◌&&◌, ◌||◌, ◌==◌, not,
  if◌then◌else◌, leb, ltb, map, reverse, all, is_empty, is_some_and, length, Option, none, some,
  Result, ok, err, ◌>>=◌, ◌>>◌, bail_if, String,
}

module _ (u : Unicode) where
  unfoldable pub collapse_spaces : Text → Text
  collapse_spaces input = u.replace_all (codes "\\s+") (trim input) (codes " ")

  unfoldable pub collapse_underscores : Text → Text
  collapse_underscores input =
      u.replace_all (codes "_+") (trim_by (λ c. c == b'_') input) (codes "_")

  unfoldable pub strip_symbols : Text → Text
  strip_symbols [] = []
  strip_symbols (c ∷ s) =
      let rest = strip_symbols s in
      if u.is_alphanumeric c || is_whitespace c || c == b'.' || c == b'_' || c == b'-'
      then c ∷ rest
      else rest

  unfoldable pub spaces_to_underscore : Text → Text
  unfolding collapse_underscores collapse_spaces
  spaces_to_underscore input = collapse_underscores (replace_char b' ' b'_' (collapse_spaces input))

  -- The transforms without arguments.
  unfoldable pub plain_transforms : List (Text × (Text → Text))
  plain_transforms =
      (codes "upper", u.uppercase)
      ∷ (codes "lower", u.lowercase)
      ∷ (codes "capitalized", capitalized u)
      ∷ (codes "title", title_case u)
      ∷ (codes "snake", to_snake u)
      ∷ (codes "camel", to_camel u)
      ∷ (codes "pascal", to_pascal u)
      ∷ (codes "kebab", to_kebab u)
      ∷ (codes "trim", trim)
      ∷ (codes "collapse_spaces", collapse_spaces)
      ∷ (codes "strip_symbols", strip_symbols)
      ∷ (codes "spaces_to_underscore", spaces_to_underscore)
      ∷ (codes "sanitize_windows_filename", sanitize_windows_filename)
      ∷ []

  unfoldable pub apply_invocation : TransformInvocation → Text → Result TokenError Text
  unfolding require_no_args plain_transforms
  apply_invocation i input = elim (lookup i.name plain_transforms) [
    | some f ↦ require_no_args i >> ok (f input)
    | none ↦
        if text_eq i.name (codes "take")
        then take_chars input i
        else if text_eq i.name (codes "skip")
        then skip_chars input i
        else if text_eq i.name (codes "slice")
        then slice_chars input i
        else err (unknown_transform i.raw)
  ]

  unfoldable pub apply_transform : Text → Text → Result TokenError Text
  unfolding apply_invocation
  apply_transform name input = parse_invocation name >>= λ i. apply_invocation i input

  unfoldable pub apply_regex_preset : Text → Text → Result TokenError Text
  unfolding collapse_spaces
  apply_regex_preset name input =
      let normalized = normalize_identifier name in
      if text_eq normalized (codes "remove_digits")
      then ok (u.replace_all (codes "\\d+") input [])
      else if text_eq normalized (codes "strip_special")
      then ok (u.replace_all (codes "[^\\p{L}\\p{N}._\\- ]+") input [])
      else if text_eq normalized (codes "extract_date")
      then ok
          (elim (u.find (codes "\\d{4}[-_.]\\d{2}[-_.]\\d{2}|\\d{2}[-_.]\\d{2}[-_.]\\d{4}") input) [
            | none ↦ []
            | some date ↦ date
          ])
      else if text_eq normalized (codes "remove_parens")
      then ok (collapse_spaces (u.replace_all (codes "\\s*\\([^)]*\\)\\s*") input (codes " ")))
      else if text_eq normalized (codes "digits_only")
      then ok (u.replace_all (codes "\\D+") input [])
      else if text_eq normalized (codes "letters_only")
      then ok (u.replace_all (codes "[^\\p{L}]+") input [])
      else err (unknown_regex_preset name)
