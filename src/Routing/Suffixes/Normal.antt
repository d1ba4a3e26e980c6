-- ===== src/Routing/Suffixes/Normal.antt =====
-- `normalizeSuffixes` of core/routing/rules.go.
use tenebra.Prelude.{
  true, false, ◌||◌, Bool-cases, List, [], ◌∷◌, Text, codes, text_eq, text_eq_iff, text_eq_refl,
  any, any-In, In, ◌≡◌, ◌≢◌, ◌⊎◌, ◌↔◌, inl, inr, refl, ap, ◌∙◌, arith,
}
use tenebra.Prelude.Sort.{sort_stable-IsSorted, IsStrictWeak, IsSorted}
use tenebra.Prelude.Sort.Elements.{sort-In, In-sort, Distinct, sort-Distinct}
use tenebra.Routing.Suffixes.{clean, collect, text_lt, normalize_suffixes}

text_lt_asym : (a b : Text) → text_lt a b ≡ true → text_lt b a ≡ false
unfolding text_lt
text_lt_asym [] [] h = refl
text_lt_asym [] (y ∷ b) h = refl
text_lt_asym (x ∷ a) [] h = cc
text_lt_asym (x ∷ a) (y ∷ b) h = ground (arith, text_lt_asym a b)

text_lt_trans : (a b c : Text) → text_lt b a ≡ false → text_lt c b ≡ false → text_lt c a ≡ false
unfolding text_lt
text_lt_trans [] b c h k = refl
text_lt_trans (x ∷ a) [] c h k = cc
text_lt_trans (x ∷ a) (y ∷ b) [] h k = cc
text_lt_trans (x ∷ a) (y ∷ b) (z ∷ c) h k = ground (arith, text_lt_trans a b c)

text_lt-weak : IsStrictWeak text_lt
text_lt-weak = record { asym = text_lt_asym; trans = text_lt_trans }

In-any : (t : Text) (seen : List Text) → In t seen → any (text_eq t) seen ≡ true
In-any t seen i = any-In (text_eq t) t seen i (text_eq_refl t)

the_sum : (x t : Text) (xs : List Text) → In t (x ∷ xs) → (t ≡ x) ⊎ In t xs
the_sum x t xs i = i

skipped : (x s : Text) → s ≡ x → clean s ≢ codes "" → text_eq (clean x) (codes "") ≡ false
skipped x s e named = elim (Bool-cases (text_eq (clean x) (codes ""))) [
  | inl blank ↦ absurd (named (ap clean e ∙ (text_eq_iff (clean x) (codes "")).0 blank))
  | inr f ↦ f
]

-- What the loop collects is the cleaned form of an entry, not empty and not seen.
collect-clean :
    (seen ss : List Text) (t : Text)
    → In t (collect seen ss)
    → (t ≢ codes "") × (any (text_eq t) seen ≡ false) × ((s : Text) × In s ss × (t ≡ clean s))
unfolding collect
collect-clean seen [] t i = absurd i
collect-clean seen (s ∷ ss) t i =
    elim (Bool-cases (text_eq (clean s) (codes "") || any (text_eq (clean s)) seen)) [
      | inl skip ↦
          let (a, b, (s', j, e)) = collect-clean seen ss t (rw (skip, collect) at i) in
          (a, b, (s', inr j, e))
      | inr new ↦
          elim (the_sum (clean s) t (collect (clean s ∷ seen) ss) (rw (new, collect) at i)) [
            | inl e ↦ (
              λ blank. absurd (ground (arith, text_eq_iff (clean s) (codes ""))),
              rw e (ground arith),
              (s, inl refl, e),
            )
            | inr j ↦
                let (a, b, (s', k, e)) = collect-clean (clean s ∷ seen) ss t j in
                (a, ground arith, (s', inr k, e))
          ]
    ]

collect-full :
    (seen ss : List Text) (s : Text)
    → In s ss
    → clean s ≢ codes ""
    → (any (text_eq (clean s)) seen ≡ true) ⊎ In (clean s) (collect seen ss)
unfolding collect
collect-full seen [] s i named = absurd i
collect-full seen (x ∷ ss) s i named =
    elim (Bool-cases (text_eq (clean x) (codes "") || any (text_eq (clean x)) seen)) [
      | inl skip ↦
          rw (skip, collect)
            (elim i [
              | inl e ↦
                  inl (rw e (ground (arith, text_eq_iff (clean x) (codes ""), skipped x s e named)))
              | inr j ↦ collect-full seen ss s j named
            ])
      | inr new ↦
          rw (new, collect)
            (elim i [
              | inl e ↦ inr (inl (ap clean e))
              | inr j ↦ elim (collect-full (clean x ∷ seen) ss s j named) [
                | inl before ↦ elim (Bool-cases (text_eq (clean s) (clean x))) [
                  | inl same ↦ inr (inl ((text_eq_iff (clean s) (clean x)).0 same))
                  | inr other ↦ inl (ground arith)
                ]
                | inr k ↦ inr (inr k)
              ]
            ])
    ]

collect-Distinct : (seen ss : List Text) → Distinct (collect seen ss)
unfolding collect
collect-Distinct seen [] = tt
collect-Distinct seen (s ∷ ss) =
    elim (Bool-cases (text_eq (clean s) (codes "") || any (text_eq (clean s)) seen)) [
      | inl skip ↦ rw (skip, collect) (collect-Distinct seen ss)
      | inr new ↦
          rw (new, collect)
            (
              λ i. absurd (
                  ground (
                    arith,
                    (collect-clean (clean s ∷ seen) ss (clean s) i).1,
                    text_eq_refl (clean s),
                  )),
              collect-Distinct (clean s ∷ seen) ss,
            )
    ]

kept : (ss : List Text) (t s : Text) → In s ss → t ≢ codes "" → t ≡ clean s → In t (collect [] ss)
kept ss t s i named e = elim (collect-full [] ss s i (rw e at named)) [
  | inl none' ↦ cc
  | inr j ↦ rw e j
]

-- The normalized list holds exactly the entries without their outer white space, in lower case,
-- that are not empty then; it is in ascending order, and holds none twice.
pub normalize_suffixes_lem :
    (suffixes : List Text)
    → ((t : Text)
        → In t (normalize_suffixes suffixes)
          ↔ ((t ≢ codes "") × ((s : Text) × In s suffixes × (t ≡ clean s))))
      × IsSorted text_lt (normalize_suffixes suffixes)
      × Distinct (normalize_suffixes suffixes)
unfolding normalize_suffixes
normalize_suffixes_lem suffixes = (
  λ t. (
    λ i.
        let (a, b, c) = collect-clean [] suffixes t (In-sort text_lt t (collect [] suffixes) i) in
        (a, c),
    λ r. sort-In text_lt t (collect [] suffixes) (kept suffixes t r.1.0 r.1.1 r.0 r.1.2),
  ),
  sort_stable-IsSorted text_lt-weak (collect [] suffixes),
  sort-Distinct text_lt (collect [] suffixes) (collect-Distinct [] suffixes),
)
