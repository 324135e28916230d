-- ===== src/Domain/Tokenizer/Display/RoundTrip.antt =====
-- About a template that is printed and parsed again.
use tidyflow.Domain.Tokenizer.{
  TemplatePipeline, TemplateSegment, is_ascii_alphabetic, is_ascii_alphanumeric, is_word, literal,
  regex_preset, token, transform,
}
use tidyflow.Domain.Tokenizer.Display.{
  cons_read, flush_literal, format_template, is_identifier, is_known_regex_preset,
  is_known_transform, is_preset_name, parse_from, parse_template, read_char, read_until, segment,
}
use tidyflow.Domain.Tokenizer.Display.Presets.{IsCut, starts_slash}
use tidyflow.Domain.Tokenizer.Display.Literals.{
  format_literal-parse, open_preset, parse_from-segment,
}
use tidyflow.Base.Text.{Text, trim}
use tidyflow.Base.{
  ℕ, [], ◌∷◌, ◌++◌, Bool, true, false, ◌&&◌, ◌||◌, ◌==◌, ◌≡◌, ◌∙◌, all, any, arith, refl, some,
  is_empty, length, not, suc, ap,
}

-- A segment that the syntax can express.
abbrev pub IsReadable : TemplateSegment → Type 0
IsReadable (literal value) = is_empty value ≡ false
IsReadable (token name) = is_identifier name ≡ true
IsReadable (transform name) =
    (is_empty name ≡ false)
    × (trim name ≡ name)
    × (is_known_transform name ≡ true)
    × (any (λ c. c == b']' || c == 10 || c == 13) name ≡ false)
IsReadable (regex_preset name) = (is_identifier name ≡ true) × (is_known_regex_preset name ≡ true)

-- Two literals in a row are one, and a preset closes what a literal before it leaves open.
abbrev pub IsApart : TemplateSegment → TemplatePipeline → Type 0
IsApart (literal value) (literal next ∷ rest) = ⊥
IsApart (literal value) (regex_preset name ∷ rest) = open_preset value ≡ false
IsApart _ _ = Unit {0}

abbrev pub IsCanonical : TemplatePipeline → Type 0
IsCanonical [] = Unit {0}
IsCanonical (s ∷ rest) = IsReadable s × IsApart s rest × IsCanonical rest

-- The characters of a segment are passed over.
skip-parse :
    (d : ℕ) (xs s value : Text)
    → parse_from (suc (length xs)) value (xs ++ d ∷ s) ≡ parse_from 0 value s
unfolding parse_from
skip-parse d [] s value = refl
skip-parse d (x ∷ xs) s value = skip-parse d xs s value

-- A text without the delimiter and without line ends is read up to the delimiter.
read_until-found :
    (d : ℕ) (content s : Text)
    → any (λ c. c == d || c == 10 || c == 13) content ≡ false
    → read_until d (content ++ d ∷ s) ≡ some (content, suc (length content))
unfolding read_until cons_read
read_until-found d [] s h = ground arith
read_until-found d (c ∷ content) s h = ground (arith, read_until-found d content s (ground arith))

words-free :
    (d : ℕ) (s : Text)
    → is_word d ≡ false
    → all is_word s ≡ true
    → any (λ c. c == d || c == 10 || c == 13) s ≡ false
unfolding is_word is_ascii_alphanumeric is_ascii_alphabetic
words-free d [] gap h = refl
words-free d (c ∷ s) gap h = ground (arith, words-free d s gap (ground arith))

identifier-free :
    (d : ℕ) (s : Text)
    → is_word d ≡ false
    → is_identifier s ≡ true
    → any (λ c. c == d || c == 10 || c == 13) s ≡ false
unfolding is_identifier
identifier-free d [] gap h = refl
identifier-free d (c ∷ s) gap h =
    words-free d (c ∷ s) gap (unfold is_word is_ascii_alphanumeric in ground arith)

read-token :
    (name s : Text)
    → is_identifier name ≡ true
    → read_char b'{' (name ++ b'}' ∷ s) ≡ segment (token name) (suc (length name))
unfolding read_char
read-token [] s h = unfold is_identifier in cc
read-token (c ∷ name) s h =
    let no_brace : (c == b'{') ≡ false = unfold is_identifier is_ascii_alphabetic in ground arith in
    let free =
      identifier-free b'}' (c ∷ name)
        (unfold is_word is_ascii_alphanumeric is_ascii_alphabetic in refl) h in
    ground (arith, no_brace, read_until-found b'}' (c ∷ name) s free)

read-preset :
    (name s : Text)
    → is_identifier name ≡ true
    → is_known_regex_preset name ≡ true
    → read_char b'/' (name ++ b'/' ∷ s) ≡ segment (regex_preset name) (suc (length name))
unfolding read_char is_preset_name
read-preset name s h known =
    let free =
      identifier-free b'/' name (unfold is_word is_ascii_alphanumeric is_ascii_alphabetic in refl)
        h in
    ground (arith, read_until-found b'/' name s free)

read-transform :
    (name s : Text)
    → IsReadable (transform name)
    → read_char b'[' (name ++ b']' ∷ s) ≡ segment (transform name) (suc (length name))
unfolding read_char
read-transform name s (some_text, trimmed, known, free) =
    ground (arith, read_until-found b']' name s free)

-- A segment that is no literal is read, and what is behind it.
segment-parse :
    (d : ℕ) (seg : TemplateSegment) (c : ℕ) (name s value : Text)
    → read_char c (name ++ d ∷ s) ≡ segment seg (suc (length name))
    → parse_from 0 value (c ∷ (name ++ d ∷ s)) ≡ flush_literal value (seg ∷ parse_from 0 [] s)
segment-parse d seg c name s value e =
    parse_from-segment value c seg (suc (length name)) (name ++ d ∷ s) e
    ∙ ap (λ rest. flush_literal value (seg ∷ rest)) (skip-parse d name s [])

-- What is printed for a pipeline that does not begin with a literal ends a literal before it.
abbrev starts_literal : TemplatePipeline → Bool
starts_literal [] = false
starts_literal (literal value ∷ rest) = true
starts_literal (token name ∷ rest) = false
starts_literal (transform name ∷ rest) = false
starts_literal (regex_preset name ∷ rest) = false

format_template-IsCut :
    (p : TemplatePipeline) → starts_literal p ≡ false → IsCut (format_template p)
unfolding format_template is_word is_ascii_alphanumeric is_ascii_alphabetic
format_template-IsCut [] h = tt
format_template-IsCut (literal value ∷ rest) h = cc
format_template-IsCut (token name ∷ rest) h = refl
format_template-IsCut (transform name ∷ rest) h = refl
format_template-IsCut (regex_preset name ∷ rest) h = refl

apart-plain :
    (value : Text) (p : TemplatePipeline) → IsApart (literal value) p → starts_literal p ≡ false
apart-plain value [] h = refl
apart-plain value (literal next ∷ rest) h = absurd h
apart-plain value (token name ∷ rest) h = refl
apart-plain value (transform name ∷ rest) h = refl
apart-plain value (regex_preset name ∷ rest) h = refl

apart-closed :
    (value : Text) (p : TemplatePipeline)
    → IsApart (literal value) p
    → (starts_slash (format_template p) && open_preset value) ≡ false
unfolding format_template
apart-closed value [] h = refl
apart-closed value (literal next ∷ rest) h = absurd h
apart-closed value (token name ∷ rest) h = refl
apart-closed value (transform name ∷ rest) h = refl
apart-closed value (regex_preset name ∷ rest) h = h

last-empty : (p : TemplatePipeline) → not (is_empty p) ≡ false → format_template p ≡ []
unfolding format_template
last-empty [] h = refl
last-empty (s ∷ rest) h = cc

-- The rest of a template is read back, behind a literal if it does not begin with one.
rest-parse :
    (p : TemplatePipeline)
    → IsCanonical p
    → ((value : Text)
        → starts_literal p ≡ false
        → parse_from 0 value (format_template p) ≡ flush_literal value p)
      × (parse_from 0 [] (format_template p) ≡ p)
unfolding format_template
rest-parse [] canonical =
    (λ value plain. unfold parse_from in refl, unfold parse_from flush_literal in refl)
rest-parse (literal value ∷ rest) (some_text, apart, canonical) =
    let plain = apart-plain value rest apart in
    (
      λ before is_plain. absurd (cc),
      format_literal-parse (not (is_empty rest)) value (format_template rest) []
            (format_template-IsCut rest plain) (last-empty rest) (apart-closed value rest apart)
          ∙ (rest-parse rest canonical).0 value plain
          ∙ unfold flush_literal in ground arith,
    )
rest-parse (token name ∷ rest) (readable, apart, canonical) =
    let step = λ (value : Text).
      segment-parse b'}' (token name) b'{' name (format_template rest) value
        (read-token name (format_template rest) readable)
      ∙ ap (λ p. flush_literal value (token name ∷ p)) (rest-parse rest canonical).1 in
    (λ value plain. step value, step [] ∙ unfold flush_literal in refl)
rest-parse (transform name ∷ rest) (readable, apart, canonical) =
    let step = λ (value : Text).
      segment-parse b']' (transform name) b'[' name (format_template rest) value
        (read-transform name (format_template rest) readable)
      ∙ ap (λ p. flush_literal value (transform name ∷ p)) (rest-parse rest canonical).1 in
    (λ value plain. step value, step [] ∙ unfold flush_literal in refl)
rest-parse (regex_preset name ∷ rest) ((readable, known), apart, canonical) =
    let step = λ (value : Text).
      segment-parse b'/' (regex_preset name) b'/' name (format_template rest) value
        (read-preset name (format_template rest) readable known)
      ∙ ap (λ p. flush_literal value (regex_preset name ∷ p)) (rest-parse rest canonical).1 in
    (λ value plain. step value, step [] ∙ unfold flush_literal in refl)

-- A template that is printed reads back as it was: every pipeline of readable segments, with no empty
-- literal and no two literals in a row, and with no preset behind a literal that ends in a slash and a
-- preset's name. All other characters of a literal, braces, brackets, backslashes and slashes among
-- them, are kept.
pub parse-format_template :
    (p : TemplatePipeline) → IsCanonical p → parse_template (format_template p) ≡ p
unfolding parse_template
parse-format_template p canonical = (rest-parse p canonical).1
