-- ===== src/Fallback/Machine/Order.antt =====
-- `rebuild` of core/fallback/fallback.go: the order against the candidates.
use mathlib.Core.List.{Perm, perm_middle}
use mathlib.Core.List.Perm
use tenebra.Prelude.{
  ℕ, zero, suc, ◌+◌, ◌<◌, ◌≡◌, refl, ap, inl, inr, Bool, true, false, not, Option, none, some, List,
  [], ◌∷◌, ◌++◌, map, ℤ, Text, ◌==◌, Bool-cases, keep, arith, length, if◌then◌else◌,
}
use tenebra.Prelude.Sort.{sort_stable-perm}
use tenebra.Model.{Protocol}
use tenebra.Fallback.LastGood.{LastGood}
use tenebra.Fallback.Machine.{
  Attempt, Machine, Slot, indexed, is_index, less_by_preference, lead, order_by_preference,
  less_by_latency, order_by_latency, last_index, rebuild, new, new_by_latency, default_order,
}

abbrev attempt_of : Slot → Attempt
attempt_of s = s.1

map-indexed : (i : ℕ) (as' : List Attempt) → map attempt_of (indexed i as') ≡ as'
unfolding indexed
map-indexed i [] = refl
map-indexed i (a ∷ as') = ap (◌∷◌ a) (map-indexed (suc i) as')

abbrev other : ℕ → Slot → Bool
other k s = not (s.0 == k)

keep_above : (k i : ℕ) (as' : List Attempt) → k < i → keep (other k) (indexed i as') ≡ indexed i as'
unfolding indexed
keep_above k i [] h = refl
keep_above k i (a ∷ as') h = ground (arith, keep_above k (suc i) as')

lead-perm :
    (j k i : ℕ) (as' : List Attempt)
    → j ≡ i + k
    → Perm (lead (some k) as' ++ map attempt_of (keep (other j) (indexed i as'))) as'
unfolding lead indexed
lead-perm j k i [] e = Perm.nil
lead-perm j zero i (a ∷ as') e =
    let here : (i == j) ≡ true = ground arith in
    rw here (
      Perm.cons a (
        rw (keep_above j (suc i) as' (omega arith)) (rw (map-indexed (suc i) as') (Perm.refl as'))))
lead-perm j (suc k) i (a ∷ as') e =
    let there : (i == j) ≡ false = ground arith in
    rw there (
      Perm.trans (perm_middle (lead (some k) as') _)
        (Perm.cons a (lead-perm j k (suc i) as' (omega arith))))

keep_all : (i : ℕ) (as' : List Attempt) → keep (λ (s : Slot). true) (indexed i as') ≡ indexed i as'
unfolding indexed
keep_all i [] = refl
keep_all i (a ∷ as') = ap (◌∷◌ (i, a)) (keep_all (suc i) as')

rest-perm :
    (last : Option ℕ) (as' : List Attempt)
    → Perm
        (lead last as'
          ++ map attempt_of (keep (λ (s : Slot). not (is_index last s.0)) (indexed 0 as')))
        as'
rest-perm none as' = unfold lead in rw (keep_all 0 as') (rw (map-indexed 0 as') (Perm.refl as'))
rest-perm (some k) as' = lead-perm k k 0 as' (omega arith)

order_by_preference-perm :
    (pref : List Protocol) (as' : List Attempt) (last : Option ℕ)
    → Perm (order_by_preference pref as' last) as'
unfolding order_by_preference
order_by_preference-perm pref as' last =
    Perm.trans
      (Perm.append_left (lead last as')
        (Perm.map attempt_of (sort_stable-perm (less_by_preference pref) _)))
      (rest-perm last as')

order_by_latency-perm :
    (latency : List (Text × ℤ)) (as' : List Attempt) (last : Option ℕ)
    → Perm (order_by_latency latency as' last) as'
unfolding order_by_latency
order_by_latency-perm latency as' last =
    rw (map-indexed 0 as') at
      (Perm.map attempt_of (sort_stable-perm (less_by_latency latency last) (indexed 0 as')))

-- Whichever layout a machine uses, and whatever it remembers, the order that a rebuild lays out
-- holds every candidate exactly as often as the candidates do.
pub rebuild-perm :
    {S : Type 0} ⦃lg : LastGood S⦄ (m : Machine S) → Perm (rebuild m).order m.candidates
unfolding rebuild
rebuild-perm m = elim (Bool-cases m.by_latency) [
  | inl t ↦ rw t (order_by_latency-perm m.latency m.candidates (last_index m))
  | inr f ↦ rw f (order_by_preference-perm m.pref m.candidates (last_index m))
]

-- A new machine stands at the first of its candidates.
pub new-perm :
    {S : Type 0} ⦃lg : LastGood S⦄ (id : Text) (cands : List Attempt) (order : List Protocol)
    (last : Option S)
    → Perm (new id cands order last).order cands × ((new id cands order last).cursor ≡ 0)
unfolding new rebuild
new-perm {S} id cands order last = (
  unfold rebuild in
      rebuild-perm {S = S} (record {
        profile_id = id;
        last_good = last;
        order = [];
        cursor = 0;
        candidates = cands;
        pref = if length order == 0 then default_order else order;
        by_latency = false;
        latency = [];
      }),
  refl,
)

pub new_by_latency-perm :
    {S : Type 0} ⦃lg : LastGood S⦄ (id : Text) (cands : List Attempt) (rtt : List (Text × ℤ))
    (last : Option S)
    → Perm (new_by_latency id cands rtt last).order cands
      × ((new_by_latency id cands rtt last).cursor ≡ 0)
unfolding new_by_latency rebuild
new_by_latency-perm {S} id cands rtt last = (
  unfold rebuild in
      rebuild-perm {S = S} (record {
        profile_id = id;
        last_good = last;
        order = [];
        cursor = 0;
        candidates = cands;
        pref = [];
        by_latency = true;
        latency = rtt;
      }),
  refl,
)
