-- ===== src/Domain/PathPolicy/Roots.antt =====
-- When a path lies under a root.
use tidyflow.Base.Text.{
  Text, starts_with, starts_with_trans, starts_with_comparable, ends_with_char, starts_with-snoc,
  starts_with_refl, starts_with-append, snoc_injective, text_eq_refl,
}
use tidyflow.Domain.PathPolicy.{
  path_eq, lists_eq, root_prefix, components, slash, normalize_path, is_path_under_root,
}
use tidyflow.Base.{
  ℕ, List, Option, ◌≡◌, ◌⊎◌, inl, true, inr, some, Bool-cases, ◌∷◌, [], arith, refl, ◌++◌, false,
  ◌≢◌, ap, length, length-append,
}

-- What the code relies on of `canonicalize`.
pub record IsCanonical (canonicalize : Text → Option Text) : Type 0 where
  -- A canonical path is its own canonical form.
  pub canonical_idem : (p c : Text) → canonicalize p ≡ some c → canonicalize c ≡ some c
  -- Two canonical paths with the same components have the same text.
  pub canonical_unique :
      (p q c d : Text)
      → canonicalize p ≡ some c
      → canonicalize q ≡ some d
      → path_eq c d ≡ true
      → c ≡ d

lists_eq_refl : (ps : List Text) → lists_eq ps ps ≡ true
lists_eq_refl [] = refl
lists_eq_refl (p ∷ ps) = ground (arith, text_eq_refl p, lists_eq_refl ps)

pub path_eq_refl : (p : Text) → path_eq p p ≡ true
unfolding path_eq
path_eq_refl p = lists_eq_refl (components p)

-- A canonical text below another: equal to it, or behind it and a separator.
abbrev Below : Text → Text → Type 0
Below a r = (a ≡ r) ⊎ (starts_with a (root_prefix r) ≡ true)

starts_with-root_prefix : (r : Text) → starts_with (root_prefix r) r ≡ true
starts_with-root_prefix r = elim (Bool-cases (ends_with_char slash r)) [
  | inl closed ↦ rw closed (starts_with_refl r)
  | inr bare ↦ rw bare (starts_with-append r (slash ∷ []))
]

Below-trans : (a b c : Text) → Below a b → Below b c → Below a c
Below-trans a b c (inl e) k = rw e k
Below-trans a b c (inr h) (inl e) = inr (rw (← e) h)
Below-trans a b c (inr h) (inr k) = inr (
    starts_with_trans a b (root_prefix c)
      (starts_with_trans a (root_prefix b) b h (starts_with-root_prefix b)) k)

-- If the closed form of `t` is a prefix of that of `s`, one of the two is below the other.
Below-of_prefixes :
    (s t : Text) → starts_with (root_prefix s) (root_prefix t) ≡ true → Below s t ⊎ Below t s
Below-of_prefixes s t h = elim (Bool-cases (ends_with_char slash s)) [
  | inl closed ↦ inl (inr (rw closed at h))
  | inr bare ↦ elim (starts_with-snoc s (root_prefix t) slash (rw bare at h)) [
    | inl inside ↦ inl (inr inside)
    | inr same ↦ elim (Bool-cases (ends_with_char slash t)) [
      | inl t_closed ↦ inr (inr (rw bare (rw (← (rw t_closed at same)) (starts_with_refl t))))
      | inr t_bare ↦ inr (inl (snoc_injective t s slash (rw t_bare at same)))
    ]
  ]
]

Below-common : (a s t : Text) → Below a s → Below a t → Below s t ⊎ Below t s
Below-common a s t (inl e) k = inl (rw (← e) k)
Below-common a s t (inr h) (inl e) = inr (inr (rw (← e) h))
Below-common a s t (inr h) (inr k) =
    elim (starts_with_comparable a (root_prefix s) (root_prefix t) h k) [
      | inl p ↦ Below-of_prefixes s t p
      | inr p ↦ elim (Below-of_prefixes t s p) [ inl b ↦ inr b | inr b ↦ inl b ]
    ]

after_prefix :
    (b : Text) (x : ℕ) (rest : Text)
    → starts_with (b ++ x ∷ rest) (b ++ slash ∷ []) ≡ true
    → x ≡ slash
unfolding starts_with
after_prefix [] x rest h = ground arith
after_prefix (c ∷ b) x rest h = after_prefix b x rest (ground arith)

module _ (canonicalize : Text → Option Text) (can : IsCanonical canonicalize) where
  module _ (p r a b : Text) (at_p : canonicalize p ≡ some a) (at_r : canonicalize r ≡ some b) where
    normalize_of : (q c : Text) → canonicalize q ≡ some c → normalize_path canonicalize q ≡ c
    unfolding normalize_path
    normalize_of q c e = ground (arith, e)

    under→Below : is_path_under_root canonicalize p r ≡ true → Below a b
    unfolding is_path_under_root
    under→Below h = elim (Bool-cases (path_eq a b)) [
      | inl same ↦ inl (can.canonical_unique p r a b at_p at_r same)
      | inr other ↦ inr (ground (arith, at_p, at_r, other))
    ]

    Below→under : Below a b → is_path_under_root canonicalize p r ≡ true
    unfolding is_path_under_root
    Below→under (inl e) = ground (arith, at_p, at_r, e, path_eq_refl a)
    Below→under (inr h) = ground (arith, at_p, at_r, h)

  -- Lying under a root is transitive, for paths that have a canonical form.
  pub is_path_under_root_trans :
      (p q r a b c : Text)
      → canonicalize p ≡ some a
      → canonicalize q ≡ some b
      → canonicalize r ≡ some c
      → is_path_under_root canonicalize p q ≡ true
      → is_path_under_root canonicalize q r ≡ true
      → is_path_under_root canonicalize p r ≡ true
  is_path_under_root_trans p q r a b c at_p at_q at_r h k =
      Below→under p r a c at_p at_r
        (Below-trans a b c (under→Below p q a b at_p at_q h) (under→Below q r b c at_q at_r k))

  -- Two roots that share a path overlap: one of them lies under the other.
  pub is_path_under_root-overlap :
      (p s t a b c : Text)
      → canonicalize p ≡ some a
      → canonicalize s ≡ some b
      → canonicalize t ≡ some c
      → is_path_under_root canonicalize p s ≡ true
      → is_path_under_root canonicalize p t ≡ true
      → (is_path_under_root canonicalize s t ≡ true) ⊎ (is_path_under_root canonicalize t s ≡ true)
  is_path_under_root-overlap p s t a b c at_p at_s at_t h k =
      elim (Below-common a b c (under→Below p s a b at_p at_s h)
        (under→Below p t a c at_p at_t k)) [
          | inl x ↦ inl (Below→under s t b c at_s at_t x)
          | inr x ↦ inr (Below→under t s c b at_t at_s x)
        ]

  -- A sibling whose name only begins like the root's does not lie under the root.
  pub is_path_under_root-sibling :
      (p r b rest : Text) (x : ℕ)
      → canonicalize r ≡ some b
      → canonicalize p ≡ some (b ++ x ∷ rest)
      → ends_with_char slash b ≡ false
      → x ≢ slash
      → is_path_under_root canonicalize p r ≡ false
  is_path_under_root-sibling p r b rest x at_r at_p bare other =
      elim (Bool-cases (is_path_under_root canonicalize p r)) [
        | inr no_match ↦ no_match
        | inl under ↦ elim (under→Below p r (b ++ x ∷ rest) b at_p at_r under) [
          | inl same ↦ absurd (omega (arith, ap length same, length-append b (x ∷ rest)))
          | inr h ↦ absurd (other (after_prefix b x rest (rw bare at h)))
        ]
      ]
