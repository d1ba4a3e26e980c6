-- ===== src/Fallback/Machine/Preference.antt =====
-- `rebuildByPreference` and `Success` of core/fallback/fallback.go.
use tenebra.Prelude.{
  ℕ, ◌<◌, ◌≡◌, ap, ◌∙◌, Bool, true, false, not, Option, some, List, [], ◌∷◌, ◌++◌, map, Text,
  text_eq, text_eq_refl, ltb, ◌==◌, get_elem?, keep, any, arith,
}
use tenebra.Prelude.Sort.{
  sort_stable, IsStrictWeak, IsSorted, sort_stable-IsSorted, All-map, Agree, sort-Agree, map-sort,
  keep-sort,
}
use tenebra.Model.{Protocol}
use tenebra.Fallback.LastGood.{LastGood}
use tenebra.Fallback.Machine.Slots.{
  attempt_of, Ascending, indexed-Ascending, keep-Ascending, index_of-get,
}
use tenebra.Fallback.Machine.{
  Attempt, Machine, Slot, indexed, index_of, is_index, rank, less_by_preference, lead,
  order_by_preference, last_index, rebuild, next, success,
}

abbrev pub has_rank : List Protocol → ℕ → Attempt → Bool
has_rank pref r a = rank pref a.node.protocol == r

abbrev pub by_rank : List Protocol → Attempt → Attempt → Bool
by_rank pref a b = ltb (rank pref a.node.protocol) (rank pref b.node.protocol)

-- The candidates but the one at the last good index, in input order.
abbrev pub without : Option ℕ → List Attempt → List Attempt
without last as' = map attempt_of (keep (λ (s : Slot). not (is_index last s.0)) (indexed 0 as'))

by_rank-weak : (pref : List Protocol) → IsStrictWeak (by_rank pref)
by_rank-weak pref = record { asym = λ x y h. ground arith; trans = λ x y z h k. ground arith }

-- The index breaks a tie exactly as a stable sort does.
preference-Agree :
    (pref : List Protocol) (ss : List Slot)
    → Ascending ss
    → Agree (less_by_preference pref) (λ a b. by_rank pref (attempt_of a) (attempt_of b)) ss
unfolding less_by_preference
preference-Agree pref [] h = tt
preference-Agree pref (s ∷ ss) h =
    (All-map (λ t. s.0 < t.0) _ (λ t lt. ground arith) ss h.0, preference-Agree pref ss h.1)

pub order_by_preference_lem :
    (pref : List Protocol) (as' : List Attempt) (last : Option ℕ)
    → order_by_preference pref as' last
      ≡ lead last as' ++ sort_stable (by_rank pref) (without last as')
unfolding order_by_preference
order_by_preference_lem pref as' last =
    let rest = keep (λ (s : Slot). not (is_index last s.0)) (indexed 0 as') in
    ap (λ l. lead last as' ++ map attempt_of l)
      (sort-Agree _ _ rest
        (preference-Agree pref rest (keep-Ascending _ _ (indexed-Ascending 0 as'))))
    ∙ ap (◌++◌ (lead last as')) (map-sort attempt_of (by_rank pref) rest)

lead-some :
    (as' : List Attempt) (k : ℕ) (b : Attempt)
    → get_elem? as' k ≡ some b
    → lead (some k) as' ≡ b ∷ []
unfolding lead
lead-some as' k b e = rw (e, lead)

lead_first :
    (pref : List Protocol) (as' : List Attempt) (k : ℕ) (b : Attempt)
    → get_elem? as' k ≡ some b
    → get_elem? (order_by_preference pref as' (some k)) 0 ≡ some b
unfolding order_by_preference
lead_first pref as' k b e = rw (lead-some as' k b e)

module _ {S : Type 0} ⦃lg : LastGood S⦄ where
  -- A rebuild by protocol preference puts the last good candidate, if there is one, in front.
  -- Behind it stand the other candidates, no one of them behind one of a later protocol, and
  -- those of one rank in their input order.
  pub rebuild_by_preference :
      (m : Machine S)
      → m.by_latency ≡ false
      → (rest : List Attempt) × ((rebuild m).order ≡ lead (last_index m) m.candidates ++ rest)
        × IsSorted (by_rank m.pref) rest
        × ((r : ℕ)
            → keep (has_rank m.pref r) rest
              ≡ keep (has_rank m.pref r) (without (last_index m) m.candidates))
  unfolding rebuild
  rebuild_by_preference m h = (
    sort_stable (by_rank m.pref) (without (last_index m) m.candidates),
    rw h (order_by_preference_lem m.pref m.candidates (last_index m)),
    sort_stable-IsSorted (by_rank-weak m.pref) _,
    λ r. keep-sort (by_rank m.pref) (has_rank m.pref r) (λ x y p q. ground arith) _,
  )

  success_index :
      (m : Machine S) (s : S) (id : Text) (k : ℕ)
      → index_of id 0 m.candidates ≡ some k
      → last_index (record m { last_good = some (lg.set s m.profile_id id) }) ≡ some k
  unfolding last_index
  success_index m s id k e =
      rw (lg.get-set s m.profile_id m.profile_id id) (rw (text_eq_refl m.profile_id) e)

  -- After a success is reported on a machine with a memory that orders by preference, the next
  -- attempt is a candidate with the ID that succeeded, if the candidates have one.
  pub next-success :
      (m : Machine S) (s : S) (a : Attempt)
      → m.by_latency ≡ false
      → m.last_good ≡ some s
      → any (λ c. text_eq c.node_id a.node_id) m.candidates ≡ true
      → (b : Attempt) × (next (success m a) ≡ some b) × (b.node_id ≡ a.node_id)
  unfolding next success rebuild
  next-success m s a byl mem found =
      let (k, b, at, here, same) = index_of-get a.node_id 0 m.candidates found in
      (
        b,
        rw mem (
            rw byl (
              rw (success_index m s a.node_id k (at ∙ ap some (omega arith)))
                (lead_first m.pref m.candidates k b here))),
        same,
      )
