-- ===== src/Routing/Suffixes/Clean.antt =====
-- The cleaning of one entry in `normalizeSuffixes` of core/routing/rules.go.
use tenebra.Prelude.{
  ℕ, inl, inr, not, Bool, true, ◌&&◌, Bool-cases, [], ◌∷◌, Text, text_eq, to_lower, lower_byte,
  to_lower_idem, ◌≡◌, refl, ap, ◌∙◌, arith,
}
use tenebra.Routing.Suffixes.{is_space, trim_left, trim_right, clean}

is_space-lower_byte : (c : ℕ) → is_space (lower_byte c) ≡ is_space c
unfolding is_space lower_byte
is_space-lower_byte c = ground arith

trim_left-to_lower : (s : Text) → trim_left (to_lower s) ≡ to_lower (trim_left s)
unfolding trim_left to_lower
trim_left-to_lower [] = refl
trim_left-to_lower (c ∷ s) = elim (Bool-cases (is_space c)) [
  | inl t ↦ rw (is_space-lower_byte c, t) (trim_left-to_lower s)
  | inr f ↦ rw (is_space-lower_byte c, f)
]

empty-to_lower : (s : Text) → text_eq (to_lower s) [] ≡ text_eq s []
unfolding text_eq to_lower
empty-to_lower [] = refl
empty-to_lower (c ∷ s) = refl

trim_right-to_lower : (s : Text) → trim_right (to_lower s) ≡ to_lower (trim_right s)
unfolding trim_right to_lower
trim_right-to_lower [] = refl
trim_right-to_lower (c ∷ s) =
    rw (is_space-lower_byte c, trim_right-to_lower s, empty-to_lower (trim_right s))
      (elim (Bool-cases (text_eq (trim_right s) [] && is_space c)) [ inl t ↦ rw t | inr f ↦ rw f ])

trim_right_idem : (s : Text) → trim_right (trim_right s) ≡ trim_right s
unfolding trim_right
trim_right_idem [] = refl
trim_right_idem (c ∷ s) = elim (Bool-cases (text_eq (trim_right s) [] && is_space c)) [
  | inl t ↦ rw t
  | inr f ↦ rw f (rw (trim_right_idem s, f))
]

-- No white space at the front.
no_lead : Text → Bool
unfolding is_space
no_lead [] = true
no_lead (c ∷ s) = not (is_space c)

no_lead-trim_left : (s : Text) → no_lead (trim_left s) ≡ true
unfolding trim_left no_lead
no_lead-trim_left [] = refl
no_lead-trim_left (c ∷ s) = elim (Bool-cases (is_space c)) [
  | inl t ↦ rw t (no_lead-trim_left s)
  | inr f ↦ rw f (rw f)
]

no_lead-trim_right : (s : Text) → no_lead s ≡ true → no_lead (trim_right s) ≡ true
unfolding trim_right no_lead
no_lead-trim_right [] h = refl
no_lead-trim_right (c ∷ s) h = elim (Bool-cases (text_eq (trim_right s) [] && is_space c)) [
  | inl t ↦ rw t
  | inr f ↦ rw f h
]

trim_left-no_lead : (s : Text) → no_lead s ≡ true → trim_left s ≡ s
unfolding trim_left no_lead
trim_left-no_lead [] h = refl
trim_left-no_lead (c ∷ s) h = elim (Bool-cases (is_space c)) [
  | inl t ↦ absurd (ground arith)
  | inr f ↦ rw f
]

pub clean_idem : (s : Text) → clean (clean s) ≡ clean s
unfolding clean
clean_idem s =
    ap (λ t. to_lower (trim_right t)) (trim_left-to_lower (trim_right (trim_left s)))
    ∙ ap to_lower (trim_right-to_lower (trim_left (trim_right (trim_left s))))
    ∙ to_lower_idem (trim_right (trim_left (trim_right (trim_left s))))
    ∙ ap (λ t. to_lower (trim_right t))
        (trim_left-no_lead (trim_right (trim_left s))
          (no_lead-trim_right (trim_left s) (no_lead-trim_left s)))
    ∙ ap to_lower (trim_right_idem (trim_left s))
