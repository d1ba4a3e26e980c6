-- ===== src/Prelude/Sort/Elements.antt =====
-- The elements of a sorted list.
use tenebra.Prelude.Tests.{Bool-cases}
use tenebra.Prelude.Lists.{In, In-append_cases}
use mathlib.Core.Path.{sym}
use mathlib.Core.Path.{◌≡◌, refl}
use mathlib.Core.Bool.{Bool, false}
use mathlib.Core.Logic.{◌⊎◌, inl, inr}
use mathlib.Core.List.{List, [], ◌∷◌, ◌++◌}
use tenebra.Prelude.Sort.{insert_sorted, sort_stable, NoneBelow, IsSorted, IsStrictWeak, All}

module _ {A : Type 0} (less : A → A → Bool) where
  insert-In : (r x : A) (ys : List A) → (r ≡ x) ⊎ In r ys → In r (insert_sorted less x ys)
  unfolding insert_sorted
  insert-In r x [] i = i
  insert-In r x (y ∷ ys) i = elim (Bool-cases (less y x)) [
    | inl t ↦ rw t (elim i [
      | inl e ↦ inr (insert-In r x ys (inl e))
      | inr (inl e) ↦ inl e
      | inr (inr j) ↦ inr (insert-In r x ys (inr j))
    ])
    | inr f ↦ rw f i
  ]

  -- A sorted list has the same elements.
  pub sort-In : (r : A) (xs : List A) → In r xs → In r (sort_stable less xs)
  unfolding sort_stable
  sort-In r [] i = absurd i
  sort-In r (x ∷ xs) (inl e) = insert-In r x (sort_stable less xs) (inl e)
  sort-In r (x ∷ xs) (inr i) = insert-In r x (sort_stable less xs) (inr (sort-In r xs i))

pub NoneBelow-In :
    {A : Type 0} (less : A → A → Bool) (r q : A) (rs : List A)
    → NoneBelow less r rs
    → In q rs
    → less q r ≡ false
NoneBelow-In less r q [] h i = absurd i
NoneBelow-In less r q (s ∷ rs) h (inl e) = rw e h.0
NoneBelow-In less r q (s ∷ rs) h (inr i) = NoneBelow-In less r q rs h.1 i

pub All-In : {A : Type 0} (xs ys : List A) → ((r : A) → In r xs → In r ys) → All (λ r. In r ys) xs
All-In [] ys h = tt
All-In (x ∷ xs) ys h = (h x (inl refl), All-In xs ys (λ r i. h r (inr i)))

module _ {A : Type 0} {less : A → A → Bool} (weak : IsStrictWeak less) where
  -- The first of a sorted list is beaten by none of its elements.
  pub first-NoneBelow :
      (q r : A) (rs : List A) → IsSorted less (r ∷ rs) → In q (r ∷ rs) → less q r ≡ false
  first-NoneBelow q r rs h (inl e) =
      rw e (elim (Bool-cases (less r r)) [ inl t ↦ weak.asym r r t | inr f ↦ f ])
  first-NoneBelow q r rs h (inr i) = NoneBelow-In less r q rs h.0 i

-- No element occurs twice.
abbrev pub Distinct : {A : Type 0} → List A → Type 0
Distinct [] = Unit
Distinct (x ∷ xs) = (In x xs → ⊥) × Distinct xs

module _ {A : Type 0} (less : A → A → Bool) where
  In-insert_under :
      (r x y : A) (ys : List A)
      → (In r (insert_sorted less x ys) → (r ≡ x) ⊎ In r ys)
      → (r ≡ y) ⊎ In r (insert_sorted less x ys)
      → (r ≡ x) ⊎ ((r ≡ y) ⊎ In r ys)
  In-insert_under r x y ys rest (inl e) = inr (inl e)
  In-insert_under r x y ys rest (inr i) = elim (rest i) [ inl e ↦ inl e | inr j ↦ inr (inr j) ]

  In-insert : (r x : A) (ys : List A) → In r (insert_sorted less x ys) → (r ≡ x) ⊎ In r ys
  unfolding insert_sorted
  In-insert r x [] i = i
  In-insert r x (y ∷ ys) i = elim (Bool-cases (less y x)) [
    | inl t ↦ In-insert_under r x y ys (In-insert r x ys) (rw t at i)
    | inr f ↦ rw f at i
  ]

  pub In-sort : (r : A) (xs : List A) → In r (sort_stable less xs) → In r xs
  unfolding sort_stable
  In-sort r [] i = i
  In-sort r (x ∷ xs) i = elim (In-insert r x (sort_stable less xs) i) [
    | inl e ↦ inl e
    | inr j ↦ inr (In-sort r xs j)
  ]

  insert-Distinct :
      (x : A) (ys : List A) → (In x ys → ⊥) → Distinct ys → Distinct (insert_sorted less x ys)
  unfolding insert_sorted
  insert-Distinct x [] new d = (new, d)
  insert-Distinct x (y ∷ ys) new d = elim (Bool-cases (less y x)) [
    | inl t ↦ rw t (
      λ i. elim (In-insert y x ys i) [ inl e ↦ new (inl (sym e)) | inr j ↦ d.0 j ],
      insert-Distinct x ys (λ i. new (inr i)) d.1,
    )
    | inr f ↦ rw f (new, d)
  ]

  pub sort-Distinct : (xs : List A) → Distinct xs → Distinct (sort_stable less xs)
  unfolding sort_stable
  sort-Distinct [] d = d
  sort-Distinct (x ∷ xs) d =
      insert-Distinct x (sort_stable less xs) (λ i. d.0 (In-sort x xs i)) (sort-Distinct xs d.1)

pub Distinct-snoc :
    {A : Type 0} (xs : List A) (t : A) → Distinct xs → (In t xs → ⊥) → Distinct (xs ++ (t ∷ []))
Distinct-snoc [] t d h = (λ i. i, tt)
Distinct-snoc (x ∷ xs) t d h = (
  λ i. elim (In-append_cases x xs (t ∷ []) i) [
    | inl j ↦ d.0 j
    | inr (inl e) ↦ h (inl (sym e))
    | inr (inr z) ↦ z
  ],
  Distinct-snoc xs t d.1 (λ i. h (inr i)),
)
