-- ===== src/Prelude/Sort/Permuted.antt =====
-- Distinct lists and what is in them, permuted.
use mathlib.Core.HLevel.{⊥_prop}
use mathlib.Core.List.{
  Perm, Mem, Nodup, Nodup-cons, Nodup-nil, mem-cons, mem-cons_self, mem-cons_of_mem, not-mem-nil,
}
use mathlib.Core.List.Perm
use mathlib.Core.Logic.{∥∥₁_elim, inl, inr}
use mathlib.Core.List.{List, [], ◌∷◌}
use tenebra.Prelude.Lists.{In}
use tenebra.Prelude.Sort.Elements.{Distinct}

module _ {A : Type 0} where
  In-Mem : (a : A) (xs : List A) → In a xs → Mem a xs
  In-Mem a [] i = absurd i
  In-Mem a (x ∷ xs) (inl e) = rw e mem-cons_self
  In-Mem a (x ∷ xs) (inr i) = mem-cons_of_mem x (In-Mem a xs i)

  not-In-Mem : (a : A) (xs : List A) → (In a xs → ⊥) → Mem a xs → ⊥
  not-In-Mem a [] h m = not-mem-nil m
  not-In-Mem a (x ∷ xs) h m =
      ∥∥₁_elim (mem-cons.0 m) ⊥_prop
        (λ d. elim d [ inl e ↦ h (inl e) | inr i ↦ not-In-Mem a xs (λ j. h (inr j)) i ])

  Distinct-Nodup : (xs : List A) → Distinct xs → Nodup xs
  Distinct-Nodup [] d = Nodup-nil
  Distinct-Nodup (x ∷ xs) d = Nodup-cons.1 (not-In-Mem x xs d.0, Distinct-Nodup xs d.1)

  Nodup-Distinct : (xs : List A) → Nodup xs → Distinct xs
  Nodup-Distinct [] n = tt
  Nodup-Distinct (x ∷ xs) n =
      let p = Nodup-cons.0 n in (λ i. p.0 (In-Mem x xs i), Nodup-Distinct xs p.1)

  pub Distinct-perm : (xs ys : List A) → Perm xs ys → Distinct xs → Distinct ys
  Distinct-perm xs ys p d = Nodup-Distinct ys (Perm.nodup p (Distinct-Nodup xs d))

  pub not-In-perm : (xs ys : List A) (a : A) → Perm xs ys → (In a ys → ⊥) → In a xs → ⊥
  not-In-perm xs ys a p h i = not-In-Mem a ys h ((Perm.mem_iff p).0 (In-Mem a xs i))
