-- ===== src/Profile/Store/Places.antt =====
-- The roll-backs of core/profile/store.go, and the place that `indexOf` finds.
use tenebra.Prelude.{
  ℕ, zero, suc, ◌+◌, ◌-◌, Bool-cases, none, some, some_inj, List, [], ◌∷◌, ◌++◌, Text, text_eq,
  length, get_elem?, length-append, take, drop, set, ◌≡◌, ◌≢◌, inl, inr, refl, ap, ◌∙◌, arith,
}
use tenebra.Profile.{Profile}
use tenebra.Profile.Store.{index_of, index_from, restored, blank}

pub take-all : (ps : List Profile) (p : Profile) → take (length ps) (ps ++ p ∷ []) ≡ ps
take-all [] p = refl
take-all (q ∷ ps) p = ap (◌∷◌ q) (take-all ps p)

pub set-set :
    (ps : List Profile) (i : ℕ) (p prev : Profile)
    → get_elem? ps i ≡ some prev
    → set (set ps i p) i prev ≡ ps
set-set [] i p prev e = refl
set-set (q ∷ ps) zero p prev e = ground arith
set-set (q ∷ ps) (suc i) p prev e = ap (◌∷◌ q) (set-set ps i p prev e)

restored-first : (rest : List Profile) (r : Profile) → restored rest 0 r ≡ r ∷ rest
unfolding restored
restored-first [] r = refl
restored-first (q ∷ rest) r =
    let count : suc (length (rest ++ blank ∷ [])) - 1 ≡ suc (length rest) =
      omega (arith, length-append rest (blank ∷ [])) in
    ap (λ n. r ∷ take n (q ∷ (rest ++ blank ∷ []))) count ∙ ap (◌∷◌ r) (take-all (q ∷ rest) blank)

restored-next :
    (q r : Profile) (after : List Profile) (i : ℕ)
    → restored (q ∷ after) (suc i) r ≡ q ∷ restored after i r
unfolding restored
restored-next q r after i =
    let grown = after ++ blank ∷ [] in
    let count : suc (length grown) - suc (suc i) ≡ length grown - suc i = omega arith in
    ap (λ n. q ∷ set (take (suc i) grown ++ take n (drop i grown)) i r) count

pub restored-same :
    (ps : List Profile) (i : ℕ) (r : Profile)
    → get_elem? ps i ≡ some r
    → restored (take i ps ++ drop (suc i) ps) i r ≡ ps
restored-same [] i r e = cc
restored-same (q ∷ ps) zero r e = restored-first ps r ∙ ground arith
restored-same (q ∷ ps) (suc i) r e =
    restored-next q r (take i ps ++ drop (suc i) ps) i ∙ ap (◌∷◌ q) (restored-same ps i r e)

-- The place that `indexOf` finds is inside the list, seen from `k`.
index_from-In :
    (k : ℕ) (ps : List Profile) (id : Text) (i : ℕ)
    → index_from k id ps ≡ some i
    → (j : ℕ) × (i ≡ j + k) × (get_elem? ps j ≢ none)
unfolding index_from
index_from-In k [] id i e = cc
index_from-In k (p ∷ ps) id i e = elim (Bool-cases (text_eq p.id id)) [
  | inl y ↦ let here : k ≡ i = some_inj (rw y at e) in (0, omega arith, λ q. cc)
  | inr n ↦ let (j, q, h) = index_from-In (suc k) ps id i (rw n at e) in (suc j, q ∙ omega arith, h)
]

pub index_of-In :
    (ps : List Profile) (id : Text) (i : ℕ) → index_of ps id ≡ some i → get_elem? ps i ≢ none
unfolding index_of
index_of-In ps id i e =
    let (j, q, h) = index_from-In 0 ps id i e in let same : i ≡ j = omega arith in rw same h
