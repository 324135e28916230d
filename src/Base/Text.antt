-- ===== src/Base/Text.antt =====
-- Text as the list of its code points, and what the program uses of `str` and `char`.
use Prim.Native.Char.{code}
use tidyflow.Base.{
  ℕ, ◌+◌, ◌-◌, ◌≡◌, refl, ◌↔◌, Bool, true, false, ◌&&◌, ◌||◌, List, [], ◌∷◌, map, reverse, String,
  arith, ltb, leb, ◌==◌, if◌then◌else◌, any, ◌⊎◌, ◌++◌, inl, inr, Option, none, some, is_empty,
}

abbrev pub Text : Type 0
Text = List ℕ

abbrev pub codes : String → Text
codes String.[] = []
codes (String.◌∷◌ c s) = code c ∷ codes s

-- A message: it stays shut, since no property looks inside one.
pub msg : String → Text
msg s = codes s

unfoldable pub text_eq : Text → Text → Bool
text_eq [] [] = true
text_eq [] (y ∷ ys) = false
text_eq (x ∷ xs) [] = false
text_eq (x ∷ xs) (y ∷ ys) = x == y && text_eq xs ys

pub text_eq→eq : (s t : Text) → text_eq s t ≡ true → s ≡ t
unfolding text_eq
text_eq→eq [] [] h = refl
text_eq→eq [] (y ∷ ys) h = cc
text_eq→eq (x ∷ xs) [] h = cc
text_eq→eq (x ∷ xs) (y ∷ ys) h = ground (arith, text_eq→eq xs ys)

pub text_eq_refl : (s : Text) → text_eq s s ≡ true
unfolding text_eq
text_eq_refl [] = refl
text_eq_refl (x ∷ xs) = ground (arith, text_eq_refl xs)

pub text_eq_iff : (s t : Text) → (text_eq s t ≡ true) ↔ (s ≡ t)
text_eq_iff s t = (text_eq→eq s t, λ e. subst' e)
  where
    subst' : s ≡ t → text_eq s t ≡ true
    subst' e = rw (← e) (text_eq_refl s)

-- `str::starts_with`.
unfoldable pub starts_with : Text → Text → Bool
starts_with s [] = true
starts_with [] (p ∷ ps) = false
starts_with (c ∷ s) (p ∷ ps) = c == p && starts_with s ps

pub starts_with_refl : (s : Text) → starts_with s s ≡ true
unfolding starts_with
starts_with_refl [] = refl
starts_with_refl (c ∷ s) = ground (arith, starts_with_refl s)

pub starts_with-append : (s rest : Text) → starts_with (s ++ rest) s ≡ true
unfolding starts_with
starts_with-append [] rest = refl
starts_with-append (c ∷ s) rest = ground (arith, starts_with-append s rest)

pub starts_with_trans :
    (s p q : Text) → starts_with s p ≡ true → starts_with p q ≡ true → starts_with s q ≡ true
unfolding starts_with
starts_with_trans s p [] h k = refl
starts_with_trans s [] (b ∷ q) h k = cc
starts_with_trans [] (a ∷ p) (b ∷ q) h k = cc
starts_with_trans (c ∷ s) (a ∷ p) (b ∷ q) h k = ground (arith, starts_with_trans s p q)

-- Of two prefixes of a text one is a prefix of the other.
pub starts_with_comparable :
    (s p q : Text)
    → starts_with s p ≡ true
    → starts_with s q ≡ true
    → (starts_with p q ≡ true) ⊎ (starts_with q p ≡ true)
unfolding starts_with
starts_with_comparable s p [] h k = inl refl
starts_with_comparable s [] (b ∷ q) h k = inr refl
starts_with_comparable [] (a ∷ p) (b ∷ q) h k = cc
starts_with_comparable (c ∷ s) (a ∷ p) (b ∷ q) h k = ground (arith, starts_with_comparable s p q)

-- A prefix of a text with one more character at its end.
pub starts_with-snoc :
    (s p : Text) (c : ℕ)
    → starts_with (s ++ c ∷ []) p ≡ true
    → (starts_with s p ≡ true) ⊎ (p ≡ s ++ c ∷ [])
unfolding starts_with
starts_with-snoc s [] c h = inl refl
starts_with-snoc [] (a ∷ []) c h = ground arith
starts_with-snoc [] (a ∷ b ∷ p) c h = ground arith
starts_with-snoc (x ∷ s) (a ∷ p) c h = ground (arith, starts_with-snoc s p c)

pub snoc_injective : (s t : Text) (c : ℕ) → s ++ c ∷ [] ≡ t ++ c ∷ [] → s ≡ t
snoc_injective [] [] c e = refl
snoc_injective [] (y ∷ []) c e = cc
snoc_injective [] (y ∷ z ∷ t) c e = cc
snoc_injective (x ∷ []) [] c e = cc
snoc_injective (x ∷ z ∷ s) [] c e = cc
snoc_injective (x ∷ s) (y ∷ t) c e = ground (arith, snoc_injective s t c)

-- `str::ends_with(char)`.
unfoldable pub ends_with_char : ℕ → Text → Bool
ends_with_char c [] = false
ends_with_char c (x ∷ []) = x == c
ends_with_char c (x ∷ y ∷ s) = ends_with_char c (y ∷ s)

abbrev pub contains_char : ℕ → Text → Bool
contains_char c = any (λ x. x == c)

-- `char::is_control`: the general category Cc.
unfoldable pub is_control : ℕ → Bool
is_control c = ltb c 32 || leb 127 c && ltb c 160

-- `char::is_whitespace`: the property White_Space.
unfoldable pub is_whitespace : ℕ → Bool
is_whitespace c =
    leb 9 c && leb c 13
    || c == 32
    || c == 133
    || c == 160
    || c == 5760
    || leb 8192 c && leb c 8202
    || c == 8232
    || c == 8233
    || c == 8239
    || c == 8287
    || c == 12288

-- The bytes of a code point in UTF-8, and `str::len`.
unfoldable pub utf8_width : ℕ → ℕ
utf8_width c = if ltb c 128 then 1 else if ltb c 2048 then 2 else if ltb c 65536 then 3 else 4

unfoldable pub byte_len : Text → ℕ
byte_len [] = 0
byte_len (c ∷ s) = utf8_width c + byte_len s

-- `trim_start_matches`, `trim_end_matches` and `trim_matches` by a test on characters.
unfoldable pub trim_start_by : (ℕ → Bool) → Text → Text
trim_start_by p [] = []
trim_start_by p (c ∷ s) = let rest = trim_start_by p s in if p c then rest else c ∷ s

unfoldable pub trim_by : (ℕ → Bool) → Text → Text
unfolding trim_start_by
trim_by p s = reverse (trim_start_by p (reverse (trim_start_by p s)))

unfoldable pub trim : Text → Text
unfolding trim_by is_whitespace
trim s = trim_by is_whitespace s

-- `to_ascii_uppercase` and `replace(char, char)`.
unfoldable pub ascii_upper : ℕ → ℕ
ascii_upper c = if leb 97 c && leb c 122 then c - 32 else c

unfoldable pub to_ascii_uppercase : Text → Text
unfolding ascii_upper
to_ascii_uppercase s = map ascii_upper s

unfoldable pub replace_char : ℕ → ℕ → Text → Text
replace_char a b [] = []
replace_char a b (c ∷ s) = (if c == a then b else c) ∷ replace_char a b s

-- `str::split(char)`: the pieces between the separators, one piece more than separators.
abbrev pub cons_head : ℕ → List Text → List Text
cons_head c [] = (c ∷ []) ∷ []
cons_head c (p ∷ ps) = (c ∷ p) ∷ ps

unfoldable pub split : ℕ → Text → List Text
split sep [] = [] ∷ []
split sep (c ∷ s) = let rest = split sep s in if c == sep then [] ∷ rest else cons_head c rest

-- `to_ascii_lowercase`, `eq_ignore_ascii_case` and `contains`.
unfoldable pub ascii_lower : ℕ → ℕ
ascii_lower c = if leb 65 c && leb c 90 then c + 32 else c

unfoldable pub to_ascii_lowercase : Text → Text
unfolding ascii_lower
to_ascii_lowercase s = map ascii_lower s

abbrev pub eq_ignore_ascii_case : Text → Text → Bool
eq_ignore_ascii_case s t = text_eq (to_ascii_lowercase s) (to_ascii_lowercase t)

unfoldable pub contains : Text → Text → Bool
contains [] needle = starts_with [] needle
contains (c ∷ s) needle = let rest = contains s needle in starts_with (c ∷ s) needle || rest

-- The text before and after the last dot.
last_dot : Text → Option (Text × Text)
last_dot [] = none
last_dot (c ∷ s) = elim (last_dot s) [
  | some (a, b) ↦ some (c ∷ a, b)
  | none ↦ if c == b'.' then some ([], s) else none
]

-- `Path::file_stem`, and the extension with its dot: a name that begins with its only dot has none.
unfoldable pub file_stem : Text → Text
unfolding last_dot
file_stem name = elim (last_dot name) [ none ↦ name | some (a, b) ↦ if is_empty a then name else a ]

unfoldable pub dot_extension : Text → Text
unfolding last_dot
dot_extension name = elim (last_dot name) [
  | none ↦ []
  | some (a, b) ↦ if is_empty a then [] else b'.' ∷ b
]
