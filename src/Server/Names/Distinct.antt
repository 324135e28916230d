-- ===== src/Server/Names/Distinct.antt =====
-- About `normalize_instance_ids`.
use tidyflow.Base.TextMap.{contains_text}
use tidyflow.Server.Names.{normalize_instance_ids, push_ids}
use tidyflow.Base.Text.{Text, text_eq, trim}
use tidyflow.Base.{
  List, [], ◌∷◌, ◌++◌, ◌||◌, ◌≡◌, false, Bool-cases, inl, inr, arith, is_empty, refl,
}

abbrev pub NoRepeat : List Text → Type 0
NoRepeat [] = Unit {0}
NoRepeat (t ∷ ts) = (contains_text t ts ≡ false) × NoRepeat ts

contains_text-snoc :
    (x t : Text) (ts : List Text)
    → contains_text x (ts ++ t ∷ []) ≡ (contains_text x ts || text_eq t x)
unfolding contains_text
contains_text-snoc x t [] = ground arith
contains_text-snoc x t (y ∷ ts) = ground (arith, contains_text-snoc x t ts)

text_eq_comm : (s t : Text) → text_eq s t ≡ text_eq t s
unfolding text_eq
text_eq_comm [] [] = refl
text_eq_comm [] (b ∷ t) = refl
text_eq_comm (a ∷ s) [] = refl
text_eq_comm (a ∷ s) (b ∷ t) = ground (arith, text_eq_comm s t)

snoc-NoRepeat :
    (t : Text) (ts : List Text) → contains_text t ts ≡ false → NoRepeat ts → NoRepeat (ts ++ t ∷ [])
unfolding contains_text
snoc-NoRepeat t [] new h = (ground arith, tt)
snoc-NoRepeat t (x ∷ ts) new (first, rest) = (
  ground (arith, contains_text-snoc x t ts, text_eq_comm x t, first),
  snoc-NoRepeat t ts (ground arith) rest,
)

push_ids-NoRepeat : (seen ids : List Text) → NoRepeat seen → NoRepeat (push_ids seen ids)
unfolding push_ids
push_ids-NoRepeat seen [] h = h
push_ids-NoRepeat seen (id ∷ ids) h =
    elim (Bool-cases (is_empty (trim id) || contains_text (trim id) seen)) [
      | inl drop ↦ rw (drop, push_ids) (push_ids-NoRepeat seen ids h)
      | inr keep ↦
          rw (keep, push_ids)
            (push_ids-NoRepeat (seen ++ trim id ∷ []) ids
              (snoc-NoRepeat (trim id) seen (ground arith) h))
    ]

pub normalize_instance_ids-NoRepeat : (ids : List Text) → NoRepeat (normalize_instance_ids ids)
unfolding normalize_instance_ids
normalize_instance_ids-NoRepeat ids = push_ids-NoRepeat [] ids tt
