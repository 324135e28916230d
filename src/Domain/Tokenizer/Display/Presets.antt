-- ===== src/Domain/Tokenizer/Display/Presets.antt =====
-- About the names of presets between slashes, in a literal as it is printed.
use tidyflow.Domain.Tokenizer.{is_ascii_alphabetic, is_ascii_alphanumeric, is_word}
use tidyflow.Domain.Tokenizer.Display.{
  before_slash, cons_option, cons_read, format_char, format_literal, is_escapable, is_identifier,
  is_preset_name, needs_slash_escape, next_is, read_until,
}
use tidyflow.Base.Text.{Text}
use tidyflow.Base.{
  ℕ, [], ◌∷◌, ◌++◌, Bool, true, false, ◌&&◌, ◌||◌, ◌==◌, ◌≡◌, inl, inr, all, arith, refl,
  Bool-cases, sym, ◌∙◌, Option, none, some, is_empty, not,
}
use mathlib.Core.List.{append-nil, append_assoc}

all-gap : (pre : Text) (c : ℕ) (t : Text) → is_word c ≡ false → all is_word (pre ++ c ∷ t) ≡ false
all-gap [] c t h = ground arith
all-gap (x ∷ pre) c t h = ground (arith, all-gap pre c t h)

alphabetic-word : (c : ℕ) → is_word c ≡ false → (is_ascii_alphabetic c || c == b'_') ≡ false
unfolding is_word is_ascii_alphanumeric
alphabetic-word c h = ground arith

-- A text with a character that no identifier has is no preset's name.
pub gap-preset :
    (pre : Text) (c : ℕ) (t : Text) → is_word c ≡ false → is_preset_name (pre ++ c ∷ t) ≡ false
unfolding is_preset_name is_identifier
gap-preset [] c t h = ground (arith, alphabetic-word c h)
gap-preset (x ∷ pre) c t h = ground (arith, all-gap pre c t h)

-- What was read up to a slash, after `pre`, is a preset's name.
unfoldable pub reads_preset : Text → Option (Text × ℕ) → Bool
reads_preset pre none = false
reads_preset pre (some (t, n)) = is_preset_name (pre ++ t)

reads_preset-cons :
    (pre : Text) (c : ℕ) (r : Option (Text × ℕ))
    → reads_preset pre (cons_read c r) ≡ reads_preset (pre ++ c ∷ []) r
unfolding reads_preset cons_read
reads_preset-cons pre c none = refl
reads_preset-cons pre c (some (t, n)) = rw (append_assoc pre (c ∷ []) t)

reads_preset-cons_gap :
    (pre : Text) (c : ℕ) (r : Option (Text × ℕ))
    → is_word c ≡ false
    → reads_preset pre (cons_read c r) ≡ false
unfolding reads_preset cons_read
reads_preset-cons_gap pre c none gap = refl
reads_preset-cons_gap pre c (some (t, n)) gap = gap-preset pre c t gap

-- Reading on over a character that is no delimiter and in no identifier.
reads_preset-gap :
    (pre : Text) (c : ℕ) (s : Text)
    → is_word c ≡ false
    → (c == b'/') ≡ false
    → reads_preset pre (read_until b'/' (c ∷ s)) ≡ false
unfolding read_until reads_preset
reads_preset-gap pre c s gap other =
    ground (arith, reads_preset-cons_gap pre c (read_until b'/' s) gap)

-- Reading on over a character of an identifier.
reads_preset-word :
    (pre : Text) (c : ℕ) (s : Text)
    → is_word c ≡ true
    → reads_preset pre (read_until b'/' (c ∷ s)) ≡ reads_preset (pre ++ c ∷ []) (read_until b'/' s)
unfolding read_until is_word is_ascii_alphanumeric is_ascii_alphabetic
reads_preset-word pre c s word = ground (arith, reads_preset-cons pre c (read_until b'/' s))

-- What stands behind a literal does not go on with an identifier.
abbrev pub IsCut : Text → Type 0
IsCut [] = Unit {0}
IsCut (c ∷ s) = is_word c ≡ false

abbrev pub starts_slash : Text → Bool
starts_slash [] = false
starts_slash (c ∷ s) = c == b'/'

-- The text before the first slash is a preset's name, after `pre`.
unfoldable pub splits_preset : Text → Option Text → Bool
splits_preset pre none = false
splits_preset pre (some t) = is_preset_name (pre ++ t)

splits_preset-cons :
    (pre : Text) (c : ℕ) (o : Option Text)
    → splits_preset pre (cons_option c o) ≡ splits_preset (pre ++ c ∷ []) o
unfolding splits_preset cons_option
splits_preset-cons pre c none = refl
splits_preset-cons pre c (some t) = rw (append_assoc pre (c ∷ []) t)

end-reads :
    (pre s : Text)
    → IsCut s
    → (starts_slash s && is_preset_name pre) ≡ false
    → reads_preset pre (read_until b'/' s) ≡ false
unfolding read_until
end-reads pre [] cut closed = unfold reads_preset in refl
end-reads pre (c ∷ s) cut closed = elim (Bool-cases (c == b'/')) [
  | inl slash ↦ unfold reads_preset in ground (arith, append-nil pre)
  | inr other ↦ reads_preset-gap pre c s cut other
]

word-plain :
    (followed : Bool) (c : ℕ) (rest : Text)
    → is_word c ≡ true
    → format_char followed c rest ≡ c ∷ []
unfolding format_char is_word is_ascii_alphanumeric is_ascii_alphabetic
word-plain followed c rest word = ground arith

-- Any other character prints as one that ends an identifier, and that is a slash only if it was one.
printed_head :
    (followed : Bool) (c : ℕ) (rest : Text)
    → is_word c ≡ false
    → (c == b'/' && not (needs_slash_escape rest)) ≡ false
    → (x : ℕ) × (y : Text) × (format_char followed c rest ≡ x ∷ y)
      × (is_word x ≡ false)
      × ((x == b'/') ≡ false)
unfolding format_char is_word is_ascii_alphanumeric is_ascii_alphabetic
printed_head followed c rest gap escaped = elim (Bool-cases (c == b'/')) [
  | inl slash ↦ (b'\\', b'/' ∷ [], ground arith, refl, refl)
  | inr other ↦ elim (Bool-cases (c == b'[' || c == b']')) [
    | inl bracket ↦ (b'\\', c ∷ [], ground arith, refl, refl)
    | inr plain ↦ elim (Bool-cases (c == b'{' || c == b'}')) [
      | inl brace ↦ (c, c ∷ [], ground arith, gap, other)
      | inr simple ↦ elim (Bool-cases (c == b'\\')) [
        | inr normal ↦ (c, [], ground arith, gap, other)
        | inl back ↦ elim (Bool-cases (next_is is_escapable rest || is_empty rest && followed)) [
          | inl doubled ↦ (b'\\', b'\\' ∷ [], ground arith, refl, refl)
          | inr single ↦ (b'\\', [], ground arith, refl, refl)
        ]
      ]
    ]
  ]
]

gap-printed :
    (followed : Bool) (c : ℕ) (rest s pre : Text)
    → is_word c ≡ false
    → (c == b'/' && not (needs_slash_escape rest)) ≡ false
    → reads_preset pre (read_until b'/' (format_char followed c rest ++ s)) ≡ false
gap-printed followed c rest s pre gap escaped =
    let (x, y, e, gap_x, no_slash) = printed_head followed c rest gap escaped in
    rw e (reads_preset-gap pre x (y ++ s) gap_x no_slash)

splits-word :
    (pre : Text) (c : ℕ) (v : Text)
    → is_word c ≡ true
    → splits_preset pre (before_slash (c ∷ v)) ≡ splits_preset (pre ++ c ∷ []) (before_slash v)
unfolding before_slash is_word is_ascii_alphanumeric is_ascii_alphabetic
splits-word pre c v word = ground (arith, splits_preset-cons pre c (before_slash v))

-- In a literal that is printed, no preset's name is read up to a slash, unless there is one in it.
pub format_literal-reads :
    (followed : Bool) (v s pre : Text)
    → IsCut s
    → splits_preset pre (before_slash v) ≡ false
    → (starts_slash s && is_preset_name (pre ++ v)) ≡ false
    → reads_preset pre (read_until b'/' (format_literal followed v ++ s)) ≡ false
unfolding format_literal
format_literal-reads followed [] s pre cut none_inside closed =
    end-reads pre s cut (rw (append-nil pre) at closed)
format_literal-reads followed (c ∷ v) s pre cut none_inside closed = elim (Bool-cases (is_word c)) [
  | inl word ↦
      let pre' = pre ++ c ∷ [] in
      let inside : splits_preset pre' (before_slash v) ≡ false =
        sym (splits-word pre c v word) ∙ none_inside in
      let end : (starts_slash s && is_preset_name (pre' ++ v)) ≡ false =
        rw (append_assoc pre (c ∷ []) v) closed in
      rw (word-plain followed c v word) (
        reads_preset-word pre c (format_literal followed v ++ s) word
        ∙ format_literal-reads followed v s pre' cut inside end)
  | inr gap ↦ elim (Bool-cases (c == b'/' && not (needs_slash_escape v))) [
    | inr escaped ↦
        rw (append_assoc (format_char followed c v) (format_literal followed v) s)
          (gap-printed followed c v (format_literal followed v ++ s) pre gap escaped)
    | inl slash ↦
        unfold format_char read_until before_slash splits_preset reads_preset in ground arith
  ]
]
