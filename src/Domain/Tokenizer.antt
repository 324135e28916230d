-- ===== src/Domain/Tokenizer.antt =====
-- crates/autoflow-domain/src/tokenizer: the segments of a template and the names in them (mod.rs).
pub mod Display
pub mod Transforms
pub mod Evaluate
pub mod Samples
mod Tests
use tidyflow.Base.Text.{Text, ascii_lower, ends_with_char, is_whitespace, trim, trim_by}
use tidyflow.Base.{
  ℕ, List, [], ◌∷◌, ◌++◌, Bool, true, false, ◌&&◌, ◌||◌, ◌==◌, if◌then◌else◌, all, is_empty, leb,
  not,
}

pub data TemplateSegment : Type 0 where
  literal : (value : Text) → TemplateSegment
  token transform regex_preset : (name : Text) → TemplateSegment

abbrev pub TemplatePipeline : Type 0
TemplatePipeline = List TemplateSegment

-- `char::is_ascii_uppercase`, `is_ascii_alphabetic` and `is_ascii_alphanumeric`.
unfoldable pub is_ascii_uppercase : ℕ → Bool
is_ascii_uppercase c = leb b'A' c && leb c b'Z'

unfoldable pub is_ascii_alphabetic : ℕ → Bool
is_ascii_alphabetic c = leb b'A' c && leb c b'Z' || leb b'a' c && leb c b'z'

unfoldable pub is_ascii_alphanumeric : ℕ → Bool
unfolding is_ascii_alphabetic
is_ascii_alphanumeric c = is_ascii_alphabetic c || leb b'0' c && leb c b'9'

-- The loop of `normalize_identifier`: whether a separator came last, and what was pushed.
identifier_step : Bool → Text → ℕ → Bool × Text
unfolding is_ascii_alphanumeric is_ascii_uppercase
identifier_step separated out c =
    if is_ascii_alphanumeric c
    then (
      false,
      (if is_ascii_uppercase c && not separated && not (ends_with_char b'_' out)
            then out ++ b'_' ∷ []
            else out)
          ++ ascii_lower c ∷ [],
    )
    else if c == b'_' || c == b'-' || is_whitespace c
    then (
      true,
      if not (is_empty out) && not (ends_with_char b'_' out) then out ++ b'_' ∷ [] else out,
    )
    else (separated, out)

identifier_from : Bool → Text → Text → Text
unfolding identifier_step
identifier_from separated out [] = out
identifier_from separated out (c ∷ s) =
    let (separated', out') = identifier_step separated out c in identifier_from separated' out' s

unfoldable pub normalize_identifier : Text → Text
unfolding identifier_from
normalize_identifier name = trim_by (λ c. c == b'_') (identifier_from true [] (trim name))

unfoldable pub is_word : ℕ → Bool
unfolding is_ascii_alphanumeric
is_word c = is_ascii_alphanumeric c || c == b'_'
