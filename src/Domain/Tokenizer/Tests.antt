-- ===== src/Domain/Tokenizer/Tests.antt =====
-- Templates that are parsed, printed and evaluated, most of them in the source's own tests.
use tidyflow.Domain.PathPolicy.{components, is_reserved, validate_file_name, windows_stem}
use tidyflow.Domain.Tokenizer.Display.{
  parse_template, format_template, is_known_transform, is_known_regex_preset, is_identifier,
  is_preset_name,
}
use tidyflow.Domain.Tokenizer.Display.RoundTrip.{IsCanonical, parse-format_template}
use tidyflow.Domain.Tokenizer.Evaluate.{evaluate, for_directory, resolve_token}
use tidyflow.Domain.Tokenizer.Samples.{formats}
use tidyflow.Domain.Tokenizer.Transforms.{apply_transform, parse_invocation, take_chars, take, skip}
use tidyflow.Domain.Tokenizer.Transforms.Sanitize.{sanitize_windows_filename}
use tidyflow.Domain.Tokenizer.Transforms.Sanitized.{sanitize_windows_filename-valid}
use tidyflow.Domain.Tokenizer.{
  TemplatePipeline, literal, token, transform, regex_preset, normalize_identifier,
  is_ascii_alphabetic, is_ascii_alphanumeric, is_word,
}
use tidyflow.Base.Text.{
  Text, codes, trim, text_eq, split, ascii_lower, ascii_upper, ends_with_char, trim_by, is_control,
  to_ascii_uppercase, byte_len, utf8_width, to_ascii_lowercase, file_stem, starts_with,
}
use tidyflow.Base.TextMap.{contains_text, lookup}
use tidyflow.Base.{[], ◌∷◌, ◌≡◌, ◌≤◌, refl, ok, arith}

parses_segments :
    parse_template (codes "{parent}/docs/{stem}[take(3, end)]/remove_digits/")
    ≡ token (codes "parent")
      ∷ literal (codes "/docs/")
      ∷ token (codes "stem")
      ∷ transform (codes "take(3, end)")
      ∷ regex_preset (codes "remove_digits")
      ∷ []
unfolding parse_template is_known_transform is_known_regex_preset is_identifier is_preset_name
    normalize_identifier is_ascii_alphabetic is_word trim text_eq split ascii_lower ends_with_char
    trim_by contains_text
parses_segments = refl

abbrev report : TemplatePipeline
report = literal (codes "relatorio [final]/remove_digits/{x}") ∷ token (codes "stem") ∷ []

prints_escapes : format_template report ≡ codes "relatorio \\[final\\]\\/remove_digits/{{x}}{stem}"
unfolding format_template is_known_regex_preset is_identifier is_preset_name normalize_identifier
    is_ascii_alphabetic is_word trim text_eq ascii_lower ends_with_char trim_by contains_text
prints_escapes = refl

report-IsCanonical : IsCanonical report
unfolding is_identifier is_ascii_alphabetic is_word
report-IsCanonical = (refl, tt, (refl, tt, tt))

parse-format_template_example : parse_template (format_template report) ≡ report
parse-format_template_example = parse-format_template report report-IsCanonical

-- A slash and a preset's name at the end of a literal, in front of a preset: they are read back as a
-- preset of their own.
lost_literal :
    parse_template
      (format_template (literal (codes "/remove_digits") ∷ regex_preset (codes "digits_only") ∷ []))
    ≡ regex_preset (codes "remove_digits") ∷ literal (codes "digits_only/") ∷ []
unfolding parse_template format_template is_known_transform is_known_regex_preset is_identifier
    is_preset_name normalize_identifier is_ascii_alphabetic is_word trim text_eq split ascii_lower
    ends_with_char trim_by contains_text
lost_literal = refl

abbrev messy : Text
messy = codes "con: <draft>. "

messy_sanitized : sanitize_windows_filename messy ≡ codes "con_ _draft_"
unfolding sanitize_windows_filename is_reserved windows_stem is_control trim split text_eq
    to_ascii_uppercase
messy_sanitized = refl

messy_short : byte_len (sanitize_windows_filename messy) ≤ 255
unfolding sanitize_windows_filename is_reserved windows_stem is_control trim split text_eq
    to_ascii_uppercase byte_len utf8_width
messy_short = omega arith

sanitize_windows_filename-valid_example :
    validate_file_name (sanitize_windows_filename messy) ≡ ok tt
sanitize_windows_filename-valid_example = sanitize_windows_filename-valid messy messy_short

evaluates_tokens :
    evaluate formats
      (token (codes "Stem") ∷ transform (codes "take(3, end)") ∷ transform (codes "upper") ∷ [])
      (for_directory 0 1 (codes "/in/Docs") 3 3)
    ≡ ok (codes "OCS")
unfolding evaluate for_directory apply_transform parse_invocation take_chars take skip trim split
    ends_with_char normalize_identifier is_ascii_alphanumeric is_ascii_alphabetic text_eq
    ascii_lower lookup to_ascii_lowercase to_ascii_uppercase contains_text file_stem starts_with
    resolve_token components ascii_upper
evaluates_tokens = refl
