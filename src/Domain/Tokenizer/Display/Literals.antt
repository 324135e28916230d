-- ===== src/Domain/Tokenizer/Display/Literals.antt =====
-- About parsing a literal as it is printed.
use tidyflow.Domain.Tokenizer.{TemplateSegment}
use tidyflow.Domain.Tokenizer.Display.{
  before_slash, char, flush_literal, format_char, format_literal, is_escapable, is_preset_name,
  needs_slash_escape, next_is, parse_from, read_char, read_preset, read_until, segment,
}
use tidyflow.Domain.Tokenizer.Display.Presets.{
  IsCut, format_literal-reads, reads_preset, splits_preset, starts_slash,
}
use tidyflow.Base.Text.{Text}
use tidyflow.Base.{
  ℕ, [], ◌∷◌, ◌++◌, Bool, true, false, ◌&&◌, ◌||◌, ◌==◌, ◌≡◌, ◌∙◌, inl, inr, arith, refl,
  Bool-cases, Option, none, some, is_empty, ==_iff, is_some_and,
}
use mathlib.Core.List.{append-nil, append_assoc}

pub parse_from-char :
    (value : Text) (c x n : ℕ) (s : Text)
    → read_char c s ≡ char x n
    → parse_from 0 value (c ∷ s) ≡ parse_from n (value ++ x ∷ []) s
unfolding parse_from
parse_from-char value c x n s e = rw (e, parse_from)

pub parse_from-segment :
    (value : Text) (c : ℕ) (seg : TemplateSegment) (n : ℕ) (s : Text)
    → read_char c s ≡ segment seg n
    → parse_from 0 value (c ∷ s) ≡ flush_literal value (seg ∷ parse_from n [] s)
unfolding parse_from
parse_from-segment value c seg n s e = rw (e, parse_from)

-- One character of a literal, where what follows does not make it part of something else.
char-parse :
    (followed : Bool) (c : ℕ) (v s value : Text)
    → ((next_is is_escapable v || is_empty v && followed) ≡ false → next_is is_escapable s ≡ false)
    → ((c == b'/') ≡ true
        → needs_slash_escape v ≡ false
        → read_preset (read_until b'/' s) ≡ char b'/' 0)
    → parse_from 0 value (format_char followed c v ++ s) ≡ parse_from 0 (value ++ c ∷ []) s
unfolding parse_from
char-parse followed c v s value unescaped unread = elim (Bool-cases (c == b'\\')) [
  | inl back ↦ elim (Bool-cases (next_is is_escapable v || is_empty v && followed)) [
    | inl doubled ↦
        let printed : format_char followed c v ≡ b'\\' ∷ b'\\' ∷ [] =
          unfold format_char in ground (arith, back, doubled) in
        let is_back : c ≡ b'\\' = (==_iff c b'\\').0 back in
        rw (printed, is_back)
          (parse_from-char value b'\\' b'\\' 1 (b'\\' ∷ s) (unfold read_char is_escapable in refl))
    | inr single ↦
        let printed : format_char followed c v ≡ c ∷ [] =
          unfold format_char in ground (arith, back, single) in
        rw printed (
          parse_from-char value c c 0 s
            (unfold read_char in ground (arith, back, unescaped single)))
  ]
  | inr other ↦ elim (Bool-cases (c == b'{')) [
    | inl brace ↦
        let printed : format_char followed c v ≡ b'{' ∷ b'{' ∷ [] =
          unfold format_char in ground arith in
        let is_brace : c ≡ b'{' = (==_iff c b'{').0 brace in
        rw (printed, is_brace)
          (parse_from-char value b'{' b'{' 1 (b'{' ∷ s) (unfold read_char in refl))
    | inr no_brace ↦ elim (Bool-cases (c == b'}')) [
      | inl brace ↦
          let printed : format_char followed c v ≡ b'}' ∷ b'}' ∷ [] =
            unfold format_char in ground arith in
          let is_brace : c ≡ b'}' = (==_iff c b'}').0 brace in
          rw (printed, is_brace)
            (parse_from-char value b'}' b'}' 1 (b'}' ∷ s) (unfold read_char in refl))
      | inr no_close ↦ elim (Bool-cases (c == b'[' || c == b']')) [
        | inl bracket ↦
            let printed : format_char followed c v ≡ b'\\' ∷ c ∷ [] =
              unfold format_char in ground arith in
            rw printed (
              parse_from-char value b'\\' c 1 (c ∷ s)
                (unfold read_char is_escapable in ground arith))
        | inr no_bracket ↦ elim (Bool-cases (c == b'/')) [
          | inr plain ↦
              let printed : format_char followed c v ≡ c ∷ [] =
                unfold format_char in ground arith in
              rw printed (parse_from-char value c c 0 s (unfold read_char in ground arith))
          | inl slash ↦ elim (Bool-cases (needs_slash_escape v)) [
            | inl escape ↦
                let printed : format_char followed c v ≡ b'\\' ∷ b'/' ∷ [] =
                  unfold format_char in ground arith in
                let is_slash : c ≡ b'/' = (==_iff c b'/').0 slash in
                rw (printed, is_slash)
                  (parse_from-char value b'\\' b'/' 1 (b'/' ∷ s)
                    (unfold read_char is_escapable in refl))
            | inr bare ↦
                let printed : format_char followed c v ≡ c ∷ [] =
                  unfold format_char in ground (arith, slash, bare) in
                let is_slash : c ≡ b'/' = (==_iff c b'/').0 slash in
                rw (printed, is_slash)
                  (parse_from-char value b'/' b'/' 0 s (unfold read_char in unread slash bare))
          ]
        ]
      ]
    ]
  ]
]

-- The first character that a literal prints, if it is one that is not to be escaped.
unescaped_next :
    (followed : Bool) (v s : Text)
    → (followed ≡ false → s ≡ [])
    → (next_is is_escapable v || is_empty v && followed) ≡ false
    → next_is is_escapable (format_literal followed v ++ s) ≡ false
unfolding format_literal
unescaped_next followed [] s ended h = let at_end : s ≡ [] = ended h in rw at_end refl
unescaped_next followed (n ∷ w) s ended h = elim (Bool-cases (n == b'{' || n == b'}')) [
  | inl brace ↦
      let printed : format_char followed n w ≡ n ∷ n ∷ [] = unfold format_char in ground arith in
      rw printed (unfold is_escapable in ground arith)
  | inr other ↦
      let printed : format_char followed n w ≡ n ∷ [] =
        unfold format_char is_escapable in ground arith in
      rw printed (unfold is_escapable in ground arith)
]

unread_preset : (r : Option (Text × ℕ)) → reads_preset [] r ≡ false → read_preset r ≡ char b'/' 0
unfolding reads_preset read_preset
unread_preset none h = refl
unread_preset (some (t, n)) h = ground arith

splits-escape : (v : Text) → splits_preset [] (before_slash v) ≡ needs_slash_escape v
unfolding needs_slash_escape
splits-escape v = by_option (before_slash v)
  where
    by_option : (o : Option Text) → splits_preset [] o ≡ is_some_and is_preset_name o
    by_option none = unfold splits_preset in refl
    by_option (some t) = unfold splits_preset in refl

-- The literal ends in a slash and a preset's name: a slash behind it would close the preset.
pub open_preset : Text → Bool
open_preset [] = false
open_preset (c ∷ v) = c == b'/' && is_preset_name v || open_preset v

-- A literal is read back as it was, in front of what cannot become part of it.
pub format_literal-parse :
    (followed : Bool) (v s value : Text)
    → IsCut s
    → (followed ≡ false → s ≡ [])
    → (starts_slash s && open_preset v) ≡ false
    → parse_from 0 value (format_literal followed v ++ s) ≡ parse_from 0 (value ++ v) s
unfolding format_literal
format_literal-parse followed [] s value cut ended closed = rw (append-nil value)
format_literal-parse followed (c ∷ v) s value cut ended closed =
    let next = format_literal followed v ++ s in
    let inner : (starts_slash s && open_preset v) ≡ false = unfold open_preset in ground arith in
    let ih = format_literal-parse followed v s (value ++ c ∷ []) cut ended inner in
    let unread : (c == b'/') ≡ true
        → needs_slash_escape v ≡ false
        → read_preset (read_until b'/' next) ≡ char b'/' 0 =
      λ slash bare. unread_preset (read_until b'/' next) (
        format_literal-reads followed v s [] cut (splits-escape v ∙ bare)
          (unfold open_preset in ground (arith, closed, slash))) in
    rw (append_assoc (format_char followed c v) (format_literal followed v) s) (
      char-parse followed c v next value (unescaped_next followed v s ended) unread
      ∙ rw (append_assoc value (c ∷ []) v) at ih)
