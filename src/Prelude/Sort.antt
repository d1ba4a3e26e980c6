-- ===== src/Prelude/Sort.antt =====
-- `sort.SliceStable` and `sort.Strings`: insertion from the right, an element staying in front
-- of those that are not less than it.
pub mod Elements
pub mod Permuted
use mathlib.Core.List.{Perm}
use mathlib.Core.List.Perm
use tenebra.Prelude.Tests.{if◌then◌else◌, Bool-cases}
use tenebra.Prelude.Lists.{keep, any, In}
use mathlib.Core.List.{map}
use mathlib.Core.Path.{ap, ◌∙◌, sym}
use mathlib.Core.Path.{◌≡◌, refl}
use mathlib.Core.Bool.{Bool, true, false, ◌||◌}
use mathlib.Core.Logic.{◌⊎◌, inl, inr}
use mathlib.Core.List.{List, [], ◌∷◌}
use native.Mathlib.Omega.{arith}

module _ {A : Type 0} (less : A → A → Bool) where
  unfoldable pub insert_sorted : A → List A → List A
  insert_sorted x [] = x ∷ []
  insert_sorted x (y ∷ ys) = if less y x then y ∷ insert_sorted x ys else x ∷ y ∷ ys

  unfoldable pub sort_stable : List A → List A
  unfolding insert_sorted
  sort_stable [] = []
  sort_stable (x ∷ xs) = insert_sorted x (sort_stable xs)

  pub insert_sorted-perm : (x : A) (ys : List A) → Perm (insert_sorted x ys) (x ∷ ys)
  unfolding insert_sorted
  insert_sorted-perm x [] = Perm.refl (x ∷ [])
  insert_sorted-perm x (y ∷ ys) = elim (Bool-cases (less y x)) [
    | inl t ↦ rw t (Perm.trans (Perm.cons y (insert_sorted-perm x ys)) (Perm.swap x y ys))
    | inr f ↦ rw f (Perm.refl (x ∷ y ∷ ys))
  ]

  pub sort_stable-perm : (xs : List A) → Perm (sort_stable xs) xs
  unfolding sort_stable
  sort_stable-perm [] = Perm.nil
  sort_stable-perm (x ∷ xs) =
      Perm.trans (insert_sorted-perm x (sort_stable xs)) (Perm.cons x (sort_stable-perm xs))

  -- No element is less than one that stands before it.
  abbrev pub NoneBelow : A → List A → Type 0
  NoneBelow x [] = Unit
  NoneBelow x (y ∷ ys) = (less y x ≡ false) × NoneBelow x ys

  abbrev pub IsSorted : List A → Type 0
  IsSorted [] = Unit
  IsSorted (x ∷ xs) = NoneBelow x xs × IsSorted xs

-- A strict weak order, by its failure: what `sort` asks of a comparison.
pub record IsStrictWeak {A : Type 0} (less : A → A → Bool) : Type 0 where
  pub asym : (x y : A) → less x y ≡ true → less y x ≡ false
  pub trans : (x y z : A) → less y x ≡ false → less z y ≡ false → less z x ≡ false

module _ {A : Type 0} {less : A → A → Bool} (weak : IsStrictWeak less) where
  NoneBelow-trans :
      (x y : A) (ys : List A) → less y x ≡ false → NoneBelow less y ys → NoneBelow less x ys
  NoneBelow-trans x y [] e h = tt
  NoneBelow-trans x y (z ∷ zs) e h = (weak.trans x y z e h.0, NoneBelow-trans x y zs e h.1)

  NoneBelow-insert :
      (y x : A) (ys : List A)
      → less x y ≡ false
      → NoneBelow less y ys
      → NoneBelow less y (insert_sorted less x ys)
  unfolding insert_sorted
  NoneBelow-insert y x [] e h = (e, tt)
  NoneBelow-insert y x (z ∷ zs) e h = elim (Bool-cases (less z x)) [
    | inl t ↦ rw t (h.0, NoneBelow-insert y x zs e h.1)
    | inr f ↦ rw f (e, h)
  ]

  pub insert_sorted-IsSorted :
      (x : A) (ys : List A) → IsSorted less ys → IsSorted less (insert_sorted less x ys)
  unfolding insert_sorted
  insert_sorted-IsSorted x [] h = (tt, tt)
  insert_sorted-IsSorted x (y ∷ ys) h = elim (Bool-cases (less y x)) [
    | inl t ↦ rw t (NoneBelow-insert y x ys (weak.asym y x t) h.0, insert_sorted-IsSorted x ys h.1)
    | inr f ↦ rw f ((f, NoneBelow-trans x y ys f h.0), h)
  ]

  pub sort_stable-IsSorted : (xs : List A) → IsSorted less (sort_stable less xs)
  unfolding sort_stable
  sort_stable-IsSorted [] = tt
  sort_stable-IsSorted (x ∷ xs) =
      insert_sorted-IsSorted x (sort_stable less xs) (sort_stable-IsSorted xs)

abbrev pub All : {A : Type 0} → (A → Type 0) → List A → Type 0
All P [] = Unit
All P (x ∷ xs) = P x × All P xs

module _ {A : Type 0} (P Q : A → Type 0) where
  pub All-map : ((x : A) → P x → Q x) → (xs : List A) → All P xs → All Q xs
  All-map f [] h = tt
  All-map f (x ∷ xs) h = (f x h.0, All-map f xs h.1)

module _ {A : Type 0} (less less' : A → A → Bool) where
  All-insert :
      (P : A → Type 0) (x : A) (ys : List A) → P x → All P ys → All P (insert_sorted less x ys)
  unfolding insert_sorted
  All-insert P x [] p h = (p, tt)
  All-insert P x (y ∷ ys) p h = elim (Bool-cases (less y x)) [
    | inl t ↦ rw t (h.0, All-insert P x ys p h.1)
    | inr f ↦ rw f (p, h)
  ]

  pub All-sort : (P : A → Type 0) (xs : List A) → All P xs → All P (sort_stable less xs)
  unfolding sort_stable
  All-sort P [] h = tt
  All-sort P (x ∷ xs) h = All-insert P x (sort_stable less xs) h.0 (All-sort P xs h.1)

  -- The two comparisons agree on every element against those in front of it.
  abbrev pub Agree : List A → Type 0
  Agree [] = Unit
  Agree (x ∷ xs) = All (λ y. less y x ≡ less' y x) xs × Agree xs

  insert-agree :
      (x : A) (ys : List A)
      → All (λ y. less y x ≡ less' y x) ys
      → insert_sorted less x ys ≡ insert_sorted less' x ys
  unfolding insert_sorted
  insert-agree x [] h = refl
  insert-agree x (y ∷ ys) h = rw (h.0, insert-agree x ys h.1)

  -- The sort makes no other comparison, so it is the same for both.
  pub sort-Agree : (xs : List A) → Agree xs → sort_stable less xs ≡ sort_stable less' xs
  unfolding sort_stable
  sort-Agree [] h = refl
  sort-Agree (x ∷ xs) h =
      insert-agree x (sort_stable less xs) (All-sort _ xs h.0)
      ∙ ap (insert_sorted less' x) (sort-Agree xs h.1)

-- A comparison of images sorts the images.
module _ {A B : Type 0} (f : A → B) (less : B → B → Bool) where
  map-insert :
      (x : A) (ys : List A)
      → map f (insert_sorted (λ a b. less (f a) (f b)) x ys) ≡ insert_sorted less (f x) (map f ys)
  unfolding insert_sorted
  map-insert x [] = refl
  map-insert x (y ∷ ys) = elim (Bool-cases (less (f y) (f x))) [
    | inl t ↦ rw t (ap (◌∷◌ (f y)) (map-insert x ys))
    | inr e ↦ rw e
  ]

  pub map-sort :
      (xs : List A) → map f (sort_stable (λ a b. less (f a) (f b)) xs) ≡ sort_stable less (map f xs)
  unfolding sort_stable
  map-sort [] = refl
  map-sort (x ∷ xs) =
      map-insert x (sort_stable (λ a b. less (f a) (f b)) xs)
      ∙ ap (insert_sorted less (f x)) (map-sort xs)

-- Elements that do not precede one another keep their order.
module _ {A : Type 0} (less : A → A → Bool) (p : A → Bool) where
  keep-insert :
      (same : (x y : A) → p x ≡ true → p y ≡ true → less y x ≡ false) (x : A) (ys : List A)
      → keep p (insert_sorted less x ys) ≡ keep p (x ∷ ys)
  unfolding insert_sorted
  keep-insert same x [] = refl
  keep-insert same x (y ∷ ys) = ground (arith, keep-insert same x ys, same x y)

  pub keep-sort :
      (same : (x y : A) → p x ≡ true → p y ≡ true → less y x ≡ false) (xs : List A)
      → keep p (sort_stable less xs) ≡ keep p xs
  unfolding sort_stable
  keep-sort same [] = refl
  keep-sort same (x ∷ xs) =
      keep-insert same x (sort_stable less xs)
      ∙ ap (λ l. if p x then x ∷ l else l) (keep-sort same xs)

pub All-keep :
    {A : Type 0} (P : A → Type 0) (p : A → Bool) (xs : List A) → All P xs → All P (keep p xs)
All-keep P p [] h = tt
All-keep P p (x ∷ xs) h = elim (Bool-cases (p x)) [
  | inl t ↦ rw t (h.0, All-keep P p xs h.1)
  | inr f ↦ rw f (All-keep P p xs h.1)
]

module _ {A : Type 0} (less : A → A → Bool) (p : A → Bool) where
  any-insert : (x : A) (ys : List A) → any p (insert_sorted less x ys) ≡ (p x || any p ys)
  unfolding insert_sorted
  any-insert x [] = refl
  any-insert x (y ∷ ys) = ground (arith, any-insert x ys)

  pub any-sort : (xs : List A) → any p (sort_stable less xs) ≡ any p xs
  unfolding sort_stable
  any-sort [] = refl
  any-sort (x ∷ xs) = any-insert x (sort_stable less xs) ∙ ap (◌||◌ (p x)) (any-sort xs)
