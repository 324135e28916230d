-- ===== src/Domain/Tokenizer/Evaluate.antt =====
-- The evaluation of a template in crates/autoflow-domain/src/tokenizer/mod.rs. Dates and identifiers
-- are formatted by parameters.
use tidyflow.Domain.Tokenizer.{
  TemplatePipeline, TemplateSegment, literal, regex_preset, token, transform,
}
use tidyflow.Domain.Tokenizer.Transforms.{
  TokenError, Unicode, apply_regex_preset, apply_transform, unknown_token,
}
use tidyflow.Domain.Counter.{to_string}
use tidyflow.Domain.PathPolicy.{components, dot, dot_dot, slash}
use tidyflow.Base.Text.{Text, codes, dot_extension, file_stem, text_eq, to_ascii_lowercase}
use tidyflow.Base.TextMap.{lookup}
use tidyflow.Base.{
  ℕ, List, [], ◌∷◌, ◌++◌, if◌then◌else◌, is_empty, ◌||◌, reverse, none, some, Result, ok, err,
  ◌>>=◌,
}

pub record TokenContext : Type 0 where
  pub original : Text
  pub stem : Text
  pub ext : Text
  pub parent : Text
  pub grandparent : Text
  pub now : ℕ
  pub counter : ℕ
  pub counter_formatted : Text
  pub guid : ℕ
  pub index : ℕ
  pub variables : List (Text × Text)

-- The names of a path from its end, and the name of what they lead to: none at a root or after `..`.
path_names : Text → List Text
path_names path = reverse (components path)

abbrev last_name : List Text → Text
last_name [] = []
last_name (n ∷ names) =
    if text_eq n dot_dot || text_eq n (slash ∷ []) || text_eq n dot then [] else n

abbrev without_last : List Text → List Text
without_last [] = []
without_last (n ∷ names) = names

unfoldable pub from_path : ℕ → ℕ → Text → ℕ → ℕ → TokenContext
unfolding path_names
from_path now guid path index counter =
    let names = path_names path in
    let original = last_name names in
    record {
      original = original;
      stem = file_stem original;
      ext = dot_extension original;
      parent = last_name (without_last names);
      grandparent = last_name (without_last (without_last names));
      now = now;
      counter = counter;
      counter_formatted = [];
      guid = guid;
      index = index;
      variables = [];
    }

unfoldable pub for_directory : ℕ → ℕ → Text → ℕ → ℕ → TokenContext
unfolding from_path
for_directory now guid path index counter =
    let ctx = from_path now guid path index counter in record ctx { stem = ctx.original; ext = [] }

pub record Formats : Type 0 where
  pub unicode : Unicode
  -- chrono's `format` of an instant, and the text of an identifier.
  pub format_time : Text → ℕ → Text
  pub show_uuid : ℕ → Text

module _ (f : Formats) where
  -- The tokens that need no variable.
  built_in_tokens : TokenContext → List (Text × Text)
  built_in_tokens c =
      (codes "original", c.original)
      ∷ (codes "stem", c.stem)
      ∷ (codes "ext", c.ext)
      ∷ (codes "parent", c.parent)
      ∷ (codes "grandparent", c.grandparent)
      ∷ (codes "date", f.format_time (codes "%Y-%m-%d") c.now)
      ∷ (codes "year", f.format_time (codes "%Y") c.now)
      ∷ (codes "month", f.format_time (codes "%m") c.now)
      ∷ (codes "day", f.format_time (codes "%d") c.now)
      ∷ (codes "hour", f.format_time (codes "%H") c.now)
      ∷ (codes "minute", f.format_time (codes "%M") c.now)
      ∷ (codes "second", f.format_time (codes "%S") c.now)
      ∷ (
        codes "counter",
        if is_empty c.counter_formatted then to_string c.counter else c.counter_formatted,
      )
      ∷ (codes "guid", f.show_uuid c.guid)
      ∷ (codes "index", to_string c.index)
      ∷ []

  resolve_variable : Text → Text → TokenContext → Result TokenError Text
  resolve_variable lower name c = elim (lookup lower c.variables) [
    | some value ↦ ok value
    | none ↦ elim (lookup name c.variables) [
      | some value ↦ ok value
      | none ↦ err (unknown_token lower)
    ]
  ]

  unfoldable pub resolve_token : Text → TokenContext → Result TokenError Text
  unfolding built_in_tokens resolve_variable
  resolve_token name c =
      let lower = to_ascii_lowercase name in
      elim (lookup lower (built_in_tokens c)) [
        | some value ↦ ok value
        | none ↦ resolve_variable lower name c
      ]

  evaluate_segment : TokenContext → Text → TemplateSegment → Result TokenError Text
  evaluate_segment c value (literal lit) = ok (value ++ lit)
  evaluate_segment c value (token name) = resolve_token name c >>= λ t. ok (value ++ t)
  evaluate_segment c value (transform name) = apply_transform f.unicode name value
  evaluate_segment c value (regex_preset name) = apply_regex_preset f.unicode name value

  -- The loop over the segments, from the value so far.
  evaluate_from : TokenContext → Text → TemplatePipeline → Result TokenError Text
  unfolding evaluate_segment
  evaluate_from c value [] = ok value
  evaluate_from c value (s ∷ rest) = evaluate_segment c value s >>= λ v. evaluate_from c v rest

  unfoldable pub evaluate : TemplatePipeline → TokenContext → Result TokenError Text
  unfolding evaluate_from
  evaluate pipeline c = evaluate_from c [] pipeline
