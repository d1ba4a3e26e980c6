-- ===== src/Fallback/Machine/Latency.antt =====
-- `rebuildByLatency` of core/fallback/fallback.go.
use mathlib.Core.List.{map-append}
use tenebra.Prelude.{
  ℕ, ◌<◌, ◌≡◌, refl, ap, ◌∙◌, inl, inr, Bool, true, false, not, ◌&&◌, Option, none, some, List, [],
  ◌∷◌, ◌++◌, map, ℤ, Text, ltb, ◌==◌, if◌then◌else◌, Bool-cases, get_elem?, any, ==_iff, arith,
}
use tenebra.Prelude.Sort.{
  sort_stable, any-sort, All-sort, IsStrictWeak, IsSorted, NoneBelow, sort_stable-IsSorted, All,
  All-map, Agree, sort-Agree,
}
use tenebra.Fallback.LastGood.{LastGood}
use tenebra.Fallback.Machine.Slots.{
  attempt_of, Ascending, indexed-Ascending, indexed-get, indexed-any,
}
use tenebra.Fallback.Machine.{
  Attempt, Machine, Slot, indexed, is_index, rtt_of, less_by_latency, order_by_latency, last_index,
  rebuild,
}

module _ (latency : List (Text × ℤ)) where
  abbrev pub by_rtt : Attempt → Attempt → Bool
  by_rtt a b = ltb (rtt_of latency a) (rtt_of latency b)

  -- Faster, or as fast and the last good one.
  abbrev by_rtt_last : Option ℕ → Slot → Slot → Bool
  by_rtt_last last a b =
      let ra = rtt_of latency a.1 in
      let rb = rtt_of latency b.1 in
      if not (ra == rb) then ltb ra rb else is_index last a.0 && not (is_index last b.0)

  by_rtt_last-weak : (last : Option ℕ) → IsStrictWeak (by_rtt_last last)
  by_rtt_last-weak last = record { asym = λ x y h. ground arith; trans = λ x y z h k. ground arith }

  latency_step :
      (last : Option ℕ) (s t : Slot)
      → s.0 < t.0
      → less_by_latency latency last t s ≡ by_rtt_last last t s
  unfolding less_by_latency
  latency_step none s t h = ground arith
  latency_step (some k) s t h = ground arith

  latency-Agree :
      (last : Option ℕ) (ss : List Slot)
      → Ascending ss
      → Agree (less_by_latency latency last) (by_rtt_last last) ss
  latency-Agree last [] h = tt
  latency-Agree last (s ∷ ss) h = (
    All-map (λ t. s.0 < t.0) _ (λ t lt. latency_step last s t lt) ss h.0,
    latency-Agree last ss h.1,
  )

  sorted_slots : Option ℕ → List Attempt → List Slot
  sorted_slots last as' = sort_stable (by_rtt_last last) (indexed 0 as')

  order_by_latency_lem :
      (as' : List Attempt) (last : Option ℕ)
      → order_by_latency latency as' last ≡ map attempt_of (sorted_slots last as')
  unfolding order_by_latency sorted_slots
  order_by_latency_lem as' last =
      ap (map attempt_of)
        (sort-Agree _ _ (indexed 0 as') (latency-Agree last _ (indexed-Ascending 0 as')))

  none_faster :
      (last : Option ℕ) (s : Slot) (ss : List Slot)
      → NoneBelow (by_rtt_last last) s ss
      → NoneBelow by_rtt (attempt_of s) (map attempt_of ss)
  none_faster last s [] h = tt
  none_faster last s (t ∷ ss) h = (ground (arith, h.0), none_faster last s ss h.1)

  IsSorted-attempts :
      (last : Option ℕ) (ss : List Slot)
      → IsSorted (by_rtt_last last) ss
      → IsSorted by_rtt (map attempt_of ss)
  IsSorted-attempts last [] h = tt
  IsSorted-attempts last (s ∷ ss) h = (none_faster last s ss h.0, IsSorted-attempts last ss h.1)

  -- The first slot at the last good index, with what stands before and behind it.
  record FirstLast (last : Option ℕ) (ss : List Slot) : Type 0 where
    before : List Slot
    slot : Slot
    after : List Slot
    splits : ss ≡ before ++ slot ∷ after
    is_last : is_index last slot.0 ≡ true
    others : All (λ s. is_index last s.0 ≡ false) before

  first_last :
      (last : Option ℕ) (ss : List Slot)
      → any (λ (s : Slot). is_index last s.0) ss ≡ true
      → FirstLast last ss
  first_last last [] h = cc
  first_last last (s ∷ ss) h = elim (Bool-cases (is_index last s.0)) [
    | inl t ↦ record { before = []; slot = s; after = ss; splits = refl; is_last = t; others = tt }
    | inr f ↦
        let r = first_last last ss (rw f at h) in
        record {
          before = s ∷ r.before;
          slot = r.slot;
          after = r.after;
          splits = ap (◌∷◌ s) r.splits;
          is_last = r.is_last;
          others = (f, r.others);
        }
  ]

  below_mid :
      (last : Option ℕ) (s t : Slot) (before after : List Slot)
      → NoneBelow (by_rtt_last last) s (before ++ t ∷ after)
      → by_rtt_last last t s ≡ false
  below_mid last s t [] after h = h.0
  below_mid last s t (b ∷ before) after h = below_mid last s t before after h.1

  -- All that stands in front of the last good slot is faster.
  before_faster :
      (last : Option ℕ) (t : Slot) (before after : List Slot)
      → IsSorted (by_rtt_last last) (before ++ t ∷ after)
      → is_index last t.0 ≡ true
      → All (λ s. is_index last s.0 ≡ false) before
      → All (λ b. rtt_of latency b < rtt_of latency t.1) (map attempt_of before)
  before_faster last t [] after h is others = tt
  before_faster last t (s ∷ before) after h is others = (
    ground (arith, below_mid last s t before after h.0, others.0),
    before_faster last t before after h.1 is others.1,
  )

  All-mid :
      (P : Slot → Type 0) (t : Slot) (before after : List Slot) → All P (before ++ t ∷ after) → P t
  All-mid P t [] after h = h.0
  All-mid P t (b ∷ before) after h = All-mid P t before after h.1

  order_by_latency_tie :
      (as' : List Attempt) (k : ℕ) (a : Attempt)
      → get_elem? as' k ≡ some a
      → (before : List Attempt) × (after : List Attempt) × (order_by_latency latency as' (some k)
          ≡ before ++ a ∷ after)
        × All (λ b. rtt_of latency b < rtt_of latency a) before
  unfolding sorted_slots
  order_by_latency_tie as' k a at =
      let less = by_rtt_last (some k) in
      let r =
        first_last (some k) (sorted_slots (some k) as')
          (any-sort less (λ s. s.0 == k) _ ∙ indexed-any k k 0 as' a (omega arith) at) in
      let sorted = sort_stable-IsSorted (by_rtt_last-weak (some k)) (indexed 0 as') in
      let held = All-sort less less _ _ (indexed-get k k 0 as' a (omega arith) at) in
      let is_a : r.slot.1 ≡ a =
        All-mid _ r.slot r.before r.after (rw r.splits at held) ((==_iff _ _).0 r.is_last) in
      (
        map attempt_of r.before,
        map attempt_of r.after,
        order_by_latency_lem as' (some k)
            ∙ ap (map attempt_of) r.splits
            ∙ map-append attempt_of r.before (r.slot ∷ r.after)
            ∙ ap (λ x. map attempt_of r.before ++ x ∷ map attempt_of r.after) is_a,
        rw (← is_a) (
            before_faster (some k) r.slot r.before r.after (rw r.splits at sorted) r.is_last
              r.others),
      )

module _ {S : Type 0} ⦃lg : LastGood S⦄ where
  -- A rebuild by latency puts no candidate behind one with a larger round trip, where a
  -- candidate with no positive measurement counts as `unreachable_rtt`.
  pub rebuild_by_latency-IsSorted :
      (m : Machine S) → m.by_latency ≡ true → IsSorted (by_rtt m.latency) (rebuild m).order
  unfolding rebuild sorted_slots
  rebuild_by_latency-IsSorted m h =
      rw (h, order_by_latency_lem m.latency m.candidates (last_index m))
        (IsSorted-attempts m.latency (last_index m) _
          (sort_stable-IsSorted (by_rtt_last-weak m.latency (last_index m)) _))

  -- The last good candidate wins every tie: all that a rebuild by latency puts in front of it
  -- has a strictly smaller round trip.
  pub rebuild_by_latency_tie :
      (m : Machine S) (k : ℕ) (a : Attempt)
      → m.by_latency ≡ true
      → last_index m ≡ some k
      → get_elem? m.candidates k ≡ some a
      → (before : List Attempt) × (after : List Attempt) × ((rebuild m).order ≡ before ++ a ∷ after)
        × All (λ b. rtt_of m.latency b < rtt_of m.latency a) before
  unfolding rebuild
  rebuild_by_latency_tie m k a h last at =
      rw h (rw last (order_by_latency_tie m.latency m.candidates k a at))
