-- ===== src/Fallback/Machine/Slots.antt =====
-- The indices of the candidates in core/fallback/fallback.go.
use tenebra.Prelude.{
  ℕ, zero, suc, ◌+◌, ◌<◌, ◌≡◌, refl, ap, inl, inr, Bool, true, some, List, [], ◌∷◌, Text, text_eq,
  text_eq_iff, ◌==◌, Bool-cases, get_elem?, keep, any, arith,
}
use tenebra.Prelude.Sort.{All, All-keep, All-map}
use tenebra.Fallback.Machine.{Attempt, Slot, indexed, index_of}

abbrev pub attempt_of : Slot → Attempt
attempt_of s = s.1

abbrev pub Ascending : List Slot → Type 0
Ascending [] = Unit
Ascending (s ∷ ss) = All (λ t. s.0 < t.0) ss × Ascending ss

indexed_above : (k i : ℕ) (as' : List Attempt) → k < i → All (λ t. k < t.0) (indexed i as')
unfolding indexed
indexed_above k i [] h = tt
indexed_above k i (a ∷ as') h = (h, indexed_above k (suc i) as' (omega arith))

pub indexed-Ascending : (i : ℕ) (as' : List Attempt) → Ascending (indexed i as')
unfolding indexed
indexed-Ascending i [] = tt
indexed-Ascending i (a ∷ as') =
    (indexed_above i (suc i) as' (omega arith), indexed-Ascending (suc i) as')

pub keep-Ascending : (p : Slot → Bool) (ss : List Slot) → Ascending ss → Ascending (keep p ss)
keep-Ascending p [] h = tt
keep-Ascending p (s ∷ ss) h = elim (Bool-cases (p s)) [
  | inl t ↦ rw t (All-keep (λ t. s.0 < t.0) p ss h.0, keep-Ascending p ss h.1)
  | inr f ↦ rw f (keep-Ascending p ss h.1)
]

-- The search finds a candidate of that ID, if there is one.
pub index_of-get :
    (id : Text) (i : ℕ) (as' : List Attempt)
    → any (λ a. text_eq a.node_id id) as' ≡ true
    → (k : ℕ) × (b : Attempt) × (index_of id i as' ≡ some (i + k))
      × (get_elem? as' k ≡ some b)
      × (b.node_id ≡ id)
unfolding index_of
index_of-get id i [] h = cc
index_of-get id i (a ∷ as') h = elim (Bool-cases (text_eq a.node_id id)) [
  | inl t ↦ (0, a, rw t (ap some (omega arith)), refl, (text_eq_iff a.node_id id).0 t)
  | inr f ↦
      let (k, b, found, at, same) = index_of-get id (suc i) as' (rw f at h) in
      (suc k, b, rw f (rw found (ap some (omega arith))), at, same)
]

-- A slot at the index of a candidate holds it.
pub indexed-get :
    (j k i : ℕ) (as' : List Attempt) (a : Attempt)
    → j ≡ i + k
    → get_elem? as' k ≡ some a
    → All (λ s. s.0 ≡ j → s.1 ≡ a) (indexed i as')
unfolding indexed
indexed-get j k i [] a e h = tt
indexed-get j zero i (b ∷ as') a e h = (
  λ _. ground arith,
  All-map (λ t. i < t.0) _ (λ t lt same. absurd (omega arith)) _
      (indexed_above i (suc i) as' (omega arith)),
)
indexed-get j (suc k) i (b ∷ as') a e h =
    (λ same. absurd (omega arith), indexed-get j k (suc i) as' a (omega arith) h)

pub indexed-any :
    (j k i : ℕ) (as' : List Attempt) (a : Attempt)
    → j ≡ i + k
    → get_elem? as' k ≡ some a
    → any (λ s. s.0 == j) (indexed i as') ≡ true
unfolding indexed
indexed-any j k i [] a e h = cc
indexed-any j zero i (b ∷ as') a e h = ground arith
indexed-any j (suc k) i (b ∷ as') a e h =
    ground (arith, indexed-any j k (suc i) as' a (omega arith) h)
