-- ===== src/Domain/Tokenizer/Display.antt =====
-- crates/autoflow-domain/src/tokenizer/display.rs: templates as people write them.
pub mod Presets
pub mod Literals
pub mod RoundTrip
use tidyflow.Domain.Tokenizer.{
  TemplateSegment, TemplatePipeline, literal, token, transform, regex_preset, normalize_identifier,
  is_ascii_alphabetic, is_word,
}
use tidyflow.Base.Text.{Text, codes, split, trim}
use tidyflow.Base.TextMap.{contains_text}
use tidyflow.Base.{
  ℕ, suc, zero, List, [], ◌∷◌, ◌++◌, Bool, true, false, ◌&&◌, ◌||◌, ◌==◌, if◌then◌else◌, all,
  is_empty, not, map, Option, none, some, is_some_and,
}

abbrev transforms : List Text
transforms = map codes (
    "upper" ∷ "lower" ∷ "capitalized" ∷ "title" ∷ "snake" ∷ "camel" ∷ "pascal" ∷ "kebab" ∷ "trim"
    ∷ "collapse_spaces" ∷ "strip_symbols" ∷ "spaces_to_underscore" ∷ "sanitize_windows_filename"
    ∷ "take" ∷ "skip" ∷ "slice" ∷ [])

abbrev regex_presets : List Text
regex_presets = map codes (
    "remove_digits" ∷ "strip_special" ∷ "extract_date" ∷ "remove_parens" ∷ "digits_only"
    ∷ "letters_only" ∷ [])

abbrev first_or : Text → List Text → Text
first_or d [] = d
first_or d (p ∷ ps) = p

unfoldable pub is_known_transform : Text → Bool
is_known_transform name =
    contains_text (normalize_identifier (first_or name (split b'(' name))) transforms

unfoldable pub is_known_regex_preset : Text → Bool
is_known_regex_preset name = contains_text (normalize_identifier name) regex_presets

unfoldable pub is_identifier : Text → Bool
is_identifier [] = false
is_identifier (c ∷ s) = (is_ascii_alphabetic c || c == b'_') && all is_word s

unfoldable pub is_escapable : ℕ → Bool
is_escapable c = c == b'[' || c == b']' || c == b'/' || c == b'\\'

-- What is read up to the delimiter, and the number of characters read, with the delimiter.
cons_read : ℕ → Option (Text × ℕ) → Option (Text × ℕ)
cons_read c none = none
cons_read c (some (t, n)) = some (c ∷ t, suc n)

pub read_until : ℕ → Text → Option (Text × ℕ)
unfolding cons_read
read_until delimiter [] = none
read_until delimiter (c ∷ s) =
    let rest = read_until delimiter s in
    if c == delimiter
    then some ([], 1)
    else if (delimiter == b']' || delimiter == b'/') && (c == 10 || c == 13)
    then none
    else cons_read c rest

-- One round of the loop: the character for the literal, or the segment, and how many of the characters
-- behind the current one it has read.
pub data Read : Type 0 where
  char : (c n : ℕ) → Read
  segment : TemplateSegment → (n : ℕ) → Read

unfoldable pub is_preset_name : Text → Bool
is_preset_name content = is_identifier content && is_known_regex_preset content

read_token : Option (Text × ℕ) → Read
read_token none = char b'{' 0
read_token (some (content, n)) =
    if is_identifier content then segment (token content) n else char b'{' 0

read_transform : Option (Text × ℕ) → Read
read_transform none = char b'[' 0
read_transform (some (content, n)) =
    if not (is_empty (trim content)) && is_known_transform (trim content)
    then segment (transform (trim content)) n
    else char b'[' 0

read_preset : Option (Text × ℕ) → Read
read_preset none = char b'/' 0
read_preset (some (content, n)) =
    if is_preset_name content then segment (regex_preset content) n else char b'/' 0

-- A test of the next character, which fails at the end.
abbrev next_is : (ℕ → Bool) → Text → Bool
next_is p [] = false
next_is p (c ∷ s) = p c

abbrev head_or : ℕ → Text → ℕ
head_or d [] = d
head_or d (c ∷ s) = c

pub read_char : ℕ → Text → Read
unfolding read_token read_transform read_preset read_until is_escapable
read_char c s =
    if c == b'\\' && next_is is_escapable s
    then char (head_or c s) 1
    else if c == b'{' && next_is (λ x. x == b'{') s
    then char b'{' 1
    else if c == b'}' && next_is (λ x. x == b'}') s
    then char b'}' 1
    else if c == b'{'
    then read_token (read_until b'}' s)
    else if c == b'['
    then read_transform (read_until b']' s)
    else if c == b'/'
    then read_preset (read_until b'/' s)
    else char c 0

unfoldable pub flush_literal : Text → TemplatePipeline → TemplatePipeline
flush_literal value rest = if is_empty value then rest else literal value ∷ rest

-- The loop of `parse_template`: the characters still to be passed over, the literal so far and what is
-- left of the input. The result is what is pushed from here on.
pub parse_from : ℕ → Text → Text → TemplatePipeline
unfolding flush_literal
parse_from k value [] = flush_literal value []
parse_from (suc k) value (c ∷ s) = parse_from k value s
parse_from zero value (c ∷ s) = elim (read_char c s) [
  | char x n ↦ parse_from n (value ++ x ∷ []) s
  | segment seg n ↦ flush_literal value (seg ∷ parse_from n [] s)
]

unfoldable pub parse_template : Text → TemplatePipeline
unfolding parse_from read_char
parse_template input = parse_from 0 [] input

-- `rest.find('/')`, and the text before it.
cons_option : ℕ → Option Text → Option Text
cons_option c none = none
cons_option c (some t) = some (c ∷ t)

pub before_slash : Text → Option Text
unfolding cons_option
before_slash [] = none
before_slash (c ∷ s) =
    let rest = before_slash s in if c == b'/' then some [] else cons_option c rest

pub needs_slash_escape : Text → Bool
unfolding before_slash
needs_slash_escape rest = is_some_and is_preset_name (before_slash rest)

-- A character of a literal, before the `rest` of it.
pub format_char : Bool → ℕ → Text → Text
unfolding needs_slash_escape is_escapable
format_char followed c rest =
    if c == b'\\'
    then if next_is is_escapable rest || is_empty rest && followed
      then b'\\' ∷ b'\\' ∷ []
      else b'\\' ∷ []
    else if c == b'{'
    then b'{' ∷ b'{' ∷ []
    else if c == b'}'
    then b'}' ∷ b'}' ∷ []
    else if c == b'[' || c == b']'
    then b'\\' ∷ c ∷ []
    else if c == b'/' && needs_slash_escape rest
    then b'\\' ∷ b'/' ∷ []
    else c ∷ []

pub format_literal : Bool → Text → Text
unfolding format_char
format_literal followed [] = []
format_literal followed (c ∷ rest) = format_char followed c rest ++ format_literal followed rest

unfoldable pub format_template : TemplatePipeline → Text
unfolding format_literal
format_template [] = []
format_template (literal value ∷ rest) =
    format_literal (not (is_empty rest)) value ++ format_template rest
format_template (token name ∷ rest) = b'{' ∷ (name ++ b'}' ∷ format_template rest)
format_template (transform name ∷ rest) = b'[' ∷ (name ++ b']' ∷ format_template rest)
format_template (regex_preset name ∷ rest) = b'/' ∷ (name ++ b'/' ∷ format_template rest)
