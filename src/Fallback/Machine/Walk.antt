-- ===== src/Fallback/Machine/Walk.antt =====
-- core/fallback/fallback.go: the walk that a caller makes when every attempt fails.
use mathlib.Core.List.{Perm}
use tenebra.Prelude.{
  ℕ, zero, suc, ◌+◌, ◌≤◌, ◌<◌, ◌≡◌, refl, ap, ◌∙◌, inl, inr, true, none, some, Option-cases, List,
  [], ◌∷◌, length, get_elem?, drop, arith,
}
use tenebra.Fallback.LastGood.{LastGood}
use tenebra.Fallback.Machine.{Attempt, Machine, rebuild, next, failure, exhausted}
use tenebra.Fallback.Machine.Order.{rebuild-perm}

drop-none :
    (i : ℕ) (as' : List Attempt) → get_elem? as' i ≡ none → (length as' ≤ i) × (drop i as' ≡ [])
drop-none zero [] e = (omega arith, refl)
drop-none (suc i) [] e = (omega arith, refl)
drop-none zero (a ∷ as') e = cc
drop-none (suc i) (a ∷ as') e = let r = drop-none i as' e in (omega (arith, r.0), r.1)

drop-some :
    (i : ℕ) (as' : List Attempt) (a : Attempt)
    → get_elem? as' i ≡ some a
    → (i < length as') × (drop i as' ≡ a ∷ drop (suc i) as')
drop-some zero [] a e = cc
drop-some (suc i) [] a e = cc
drop-some zero (b ∷ as') a e = (omega arith, ground arith)
drop-some (suc i) (b ∷ as') a e = let r = drop-some i as' a e in (omega (arith, r.0), r.1)

-- The attempts handed out when each one fails, and the machine at the end.
unfoldable pub walk : {S : Type 0} → ℕ → Machine S → List Attempt × Machine S
walk zero m = ([], m)
walk (suc fuel) m = elim (next m) [
  | none ↦ ([], m)
  | some a ↦ let (tried, end) = walk fuel (failure m a) in (a ∷ tried, end)
]

failure_step :
    {S : Type 0} (m : Machine S) (a : Attempt)
    → m.cursor < length m.order
    → failure m a ≡ record m { cursor = suc m.cursor }
unfolding failure
failure_step m a h = ground arith

-- With enough fuel a walk hands out what the cursor still has in front of it, in order, and ends
-- exhausted.
walk-drop :
    {S : Type 0} (fuel : ℕ) (m : Machine S)
    → length m.order ≤ m.cursor + fuel
    → ((walk fuel m).0 ≡ drop m.cursor m.order) × (exhausted (walk fuel m).1 ≡ true)
unfolding walk exhausted
walk-drop zero m h = elim (Option-cases (get_elem? m.order m.cursor)) [
  | inl e ↦ (rw (drop-none m.cursor m.order e).1, ground arith)
  | inr (a, e) ↦ absurd (omega (arith, (drop-some m.cursor m.order a e).0))
]
walk-drop (suc fuel) m h = elim (Option-cases (next m)) [
  | inl e ↦
      let r = drop-none m.cursor m.order (unfold next in e) in
      (rw (e, walk) (rw r.1), rw (e, walk) (ground (arith, r.0)))
  | inr (a, e) ↦
      let r = drop-some m.cursor m.order a (unfold next in e) in
      let step = failure_step m a r.0 in
      let rest = walk-drop fuel (record m { cursor = suc m.cursor }) (omega (arith, h)) in
      (rw (e, walk) (rw step (ap (◌∷◌ a) rest.0 ∙ rw r.1)), rw (e, walk) (rw step rest.1))
]

-- A walk that starts with a rebuild, and in which every attempt fails, hands out each candidate
-- exactly as often as the candidates hold it, and ends exhausted.
pub walk-perm :
    {S : Type 0} ⦃lg : LastGood S⦄ (fuel : ℕ) (m : Machine S)
    → length (rebuild m).order ≤ fuel
    → Perm (walk fuel (rebuild m)).0 m.candidates × (exhausted (walk fuel (rebuild m)).1 ≡ true)
walk-perm fuel m h =
    let r = walk-drop fuel (rebuild m) (omega (arith, h)) in
    (rw r.0 (unfold rebuild in rebuild-perm m), r.1)
