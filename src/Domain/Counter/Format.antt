-- ===== src/Domain/Counter/Format.antt =====
-- About the text of a counter's value.
use tidyflow.Domain.Counter.{format_value, digits, CounterConfig, zeros, to_string}
use tidyflow.Base.Text.{Text}
use tidyflow.Base.{
  ℕ, length, ◌<◌, ◌++◌, ◌≡◌, ◌≤◌, arith, suc, Bool-cases, ltb, zero, ap, ◌==◌, refl, inl, ◌+◌, inr,
  length-append, ◌/◌, ◌-◌, ◌%◌, ◌∙◌, ◌∷◌, ◌*◌, [],
}

-- Reads a text of decimal digits.
unfoldable pub read_from : ℕ → Text → ℕ
read_from acc [] = acc
read_from acc (c ∷ s) = read_from (acc * 10 + (c - 48)) s

read_from-append : (acc : ℕ) (s t : Text) → read_from acc (s ++ t) ≡ read_from (read_from acc s) t
unfolding read_from
read_from-append acc [] t = refl
read_from-append acc (c ∷ s) t = read_from-append (acc * 10 + (c - 48)) s t

read_from-zeros : (n : ℕ) (s : Text) → read_from 0 (zeros n ++ s) ≡ read_from 0 s
unfolding read_from
read_from-zeros zero s = refl
read_from-zeros (suc n) s = read_from-zeros n s

-- With more fuel than the number, all its digits are written.
read_from-digits : (fuel n : ℕ) → n < fuel → read_from 0 (digits fuel n) ≡ n
unfolding digits read_from
read_from-digits zero n h = absurd (omega arith)
read_from-digits (suc fuel) n h = elim (Bool-cases (ltb n 10)) [
  | inl small ↦ rw (small, digits) (omega arith)
  | inr large ↦
      rw (large, digits)
        (rw (read_from-append 0 (digits fuel (n / 10)) ((48 + n % 10) ∷ []))
          (ground (arith, read_from-digits fuel (n / 10) (ground arith))))
]

-- A counter's text reads back as its value, with or without padding: two values never share a text.
pub format_value-read : (c : CounterConfig) (value : ℕ) → read_from 0 (format_value c value) ≡ value
unfolding format_value
format_value-read c value = elim (Bool-cases (c.padding == 0)) [
  | inl bare ↦ rw (bare, format_value) (read_from-digits (value + 1) value (omega arith))
  | inr padded ↦
      rw (padded, format_value)
        (read_from-zeros (c.padding - length (to_string value)) (to_string value)
          ∙ read_from-digits (value + 1) value (omega arith))
]

length-zeros : (n : ℕ) → length (zeros n) ≡ n
length-zeros zero = refl
length-zeros (suc n) = ap suc (length-zeros n)

-- A counter's text is at least as wide as the padding says.
pub format_value-wide : (c : CounterConfig) (value : ℕ) → c.padding ≤ length (format_value c value)
unfolding format_value
format_value-wide c value = elim (Bool-cases (c.padding == 0)) [
  | inl bare ↦ ground arith
  | inr padded ↦
      rw (padded, format_value)
        (omega (
          arith,
          length-append (zeros (c.padding - length (to_string value))) (to_string value),
          length-zeros (c.padding - length (to_string value)),
        ))
]
