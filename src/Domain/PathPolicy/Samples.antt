-- ===== src/Domain/PathPolicy/Samples.antt =====
-- A host with a few paths, each its own canonical form, for the tests.
use tidyflow.Domain.PathPolicy.{path_eq}
use tidyflow.Domain.PathPolicy.Roots.{IsCanonical}
use tidyflow.Base.Text.{text_eq, Text, starts_with, codes, split, text_eq→eq, text_eq_iff}
use tidyflow.Base.{
  List, all, ◌≡◌, Bool, Option, is_some_and, ◌∷◌, true, any, some, none, arith, [], if◌then◌else◌,
  refl, not, ◌||◌,
}

abbrev known : List Text
known = codes "/a" ∷ codes "/a/b" ∷ codes "/a/b/c" ∷ codes "/ab" ∷ []

find_known : Text → List Text → Option Text
find_known p [] = none
find_known p (k ∷ ks) = if text_eq k p then some k else find_known p ks

unfoldable pub canon : Text → Option Text
unfolding find_known text_eq
canon p = find_known p known

listed : Text → List Text → Bool
listed c = any (λ k. text_eq k c)

find_known-listed : (p c : Text) (ks : List Text) → find_known p ks ≡ some c → listed c ks ≡ true
unfolding find_known listed
find_known-listed p c [] e = cc
find_known-listed p c (k ∷ ks) e = ground (arith, find_known-listed p c ks, text_eq_iff k c)

all_sound :
    (f : Text → Bool) (c : Text) (ks : List Text)
    → all f ks ≡ true
    → listed c ks ≡ true
    → f c ≡ true
unfolding listed
all_sound f c [] h k = cc
all_sound f c (x ∷ ks) h k = ground (arith, all_sound f c ks, text_eq→eq x c)

-- Both laws hold at every known path.
idem_table : all (λ c. is_some_and (text_eq c) (canon c)) known ≡ true
unfolding canon
idem_table = refl

unique_table : all (λ c. all (λ d. not (path_eq c d) || text_eq c d) known) known ≡ true
unfolding path_eq text_eq starts_with split
unique_table = refl

pub canon-IsCanonical : IsCanonical canon
canon-IsCanonical = record {
  canonical_idem = λ p c e.
      back c (canon c)
        (all_sound (λ c. is_some_and (text_eq c) (canon c)) c known idem_table (found p c e));
  canonical_unique = λ p q c d e f same. unique c d same (
      all_sound (λ d. not (path_eq c d) || text_eq c d) d known
        (all_sound (λ c. all (λ d. not (path_eq c d) || text_eq c d) known) c known unique_table
          (found p c e))
        (found q d f));
}
  where
    found : (p c : Text) → canon p ≡ some c → listed c known ≡ true
    found p c e = unfold canon in find_known-listed p c known e

    back : (c : Text) (o : Option Text) → is_some_and (text_eq c) o ≡ true → o ≡ some c
    back c none h = cc
    back c (some d) h = ground (arith, text_eq→eq c d)

    unique : (c d : Text) → path_eq c d ≡ true → (not (path_eq c d) || text_eq c d) ≡ true → c ≡ d
    unique c d same h = ground (arith, text_eq→eq c d)
