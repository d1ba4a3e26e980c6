-- ===== src/Nodecheck/Choice.antt =====
-- `Best` of core/nodecheck/nodecheck.go, against the results that it is given.
use tenebra.Prelude.{
  ℕ, ◌≤◌, Bool, true, false, none, some, List, [], ◌∷◌, Text, text_eq_iff, le_int, In, ◌≡◌, inl,
  inr, Bool-cases, arith,
}
use tenebra.Prelude.Sort.{All, All-sort, IsStrictWeak, IsSorted, sort_stable-IsSorted}
use tenebra.Prelude.Sort.Elements.{sort-In, All-In, first-NoneBelow}
use tenebra.Nodecheck.{
  NodeResult, usable, ok_count, score, first_index, less_at_tie, less_by_keys, less, rank, best,
  first_usable,
}

less_at_tie_asym :
    (g : Text) (idx : Text → ℕ) (a b : Text)
    → less_at_tie g idx a b ≡ true
    → less_at_tie g idx b a ≡ false
unfolding less_at_tie
less_at_tie_asym g idx a b h =
    ground (arith, text_eq_iff a b, text_eq_iff b a, text_eq_iff a g, text_eq_iff b g)

less_at_tie_trans :
    (g : Text) (idx : Text → ℕ) (a b c : Text)
    → less_at_tie g idx b a ≡ false
    → less_at_tie g idx c b ≡ false
    → less_at_tie g idx c a ≡ false
unfolding less_at_tie
less_at_tie_trans g idx a b c h k = ground (
  arith,
  text_eq_iff a b,
  text_eq_iff b a,
  text_eq_iff a g,
  text_eq_iff b g,
  text_eq_iff c g,
  text_eq_iff b c,
  text_eq_iff c b,
  text_eq_iff a c,
  text_eq_iff c a,
)

less-weak : (g : Text) (idx : Text → ℕ) → IsStrictWeak (less g idx)
unfolding less less_by_keys
less-weak g idx = record {
  asym = λ x y h. ground (arith, less_at_tie_asym g idx x.node_id y.node_id);
  trans = λ x y z h k. ground (arith, less_at_tie_trans g idx x.node_id y.node_id z.node_id);
}

rank-IsSorted :
    (results : List NodeResult) (g : Text)
    → IsSorted (less g (first_index results)) (rank results g)
unfolding rank
rank-IsSorted results g = sort_stable-IsSorted (less-weak g (first_index results)) results

-- No usable node carries more targets, and none that carries as many has a lower score.
pub record IsBest (results : List NodeResult) (r : NodeResult) : Type 0 where
  pub measured : In r results
  pub works : usable r ≡ true
  pub widest : (q : NodeResult) → In q results → usable q ≡ true → ok_count q ≤ ok_count r
  pub fastest :
      (q : NodeResult)
      → In q results
      → usable q ≡ true
      → ok_count q ≡ ok_count r
      → le_int (score r) (score q) ≡ true

not_less-count :
    (tie : Bool) (q r : NodeResult)
    → usable r ≡ true
    → usable q ≡ true
    → less_by_keys (usable q) (usable r) (ok_count q) (ok_count r) (score q) (score r) tie ≡ false
    → ok_count q ≤ ok_count r
unfolding less_by_keys
not_less-count tie q r up uq h = ground arith

not_less-score :
    (tie : Bool) (q r : NodeResult)
    → usable r ≡ true
    → usable q ≡ true
    → ok_count q ≡ ok_count r
    → less_by_keys (usable q) (usable r) (ok_count q) (ok_count r) (score q) (score r) tie ≡ false
    → le_int (score r) (score q) ≡ true
unfolding less_by_keys
not_less-score tie q r up uq c h = ground arith

module _ (g : Text) (idx : Text → ℕ) where
  first_usable-IsBest :
      (results ranked : List NodeResult) (r : NodeResult)
      → All (λ x. In x results) ranked
      → IsSorted (less g idx) ranked
      → ((q : NodeResult) → In q results → In q ranked)
      → first_usable ranked ≡ some r
      → IsBest results r
  unfolding first_usable less
  first_usable-IsBest results [] r mine sorted theirs e = cc
  first_usable-IsBest results (x ∷ rs) r mine sorted theirs e = elim (Bool-cases (usable x)) [
    | inl up ↦
        let same : x ≡ r = ground arith in
        let below = λ (q : NodeResult) (i : In q results).
          first-NoneBelow (less-weak g idx) q x rs sorted (theirs q i) in
        rw⁻¹ same (record {
          measured = mine.0;
          works = up;
          widest = λ q i uq.
              not_less-count (less_at_tie g idx q.node_id x.node_id) q x up uq (below q i);
          fastest = λ q i uq c.
              not_less-score (less_at_tie g idx q.node_id x.node_id) q x up uq c (below q i);
        })
    | inr down ↦ absurd (ground arith)
  ]

  first_usable-none :
      (ranked : List NodeResult)
      → IsSorted (less g idx) ranked
      → first_usable ranked ≡ none
      → (q : NodeResult) → In q ranked
      → usable q ≡ false
  unfolding first_usable less less_by_keys
  first_usable-none [] sorted e q i = absurd i
  first_usable-none (r ∷ rs) sorted e q i =
      ground (arith, first-NoneBelow (less-weak g idx) q r rs sorted i)

-- A node that `Best` takes was measured and is usable; no usable node carries more targets, and
-- none that carries as many has a lower score.
pub best-IsBest :
    (results : List NodeResult) (g : Text) (r : NodeResult)
    → best results g ≡ some r
    → IsBest results r
unfolding best
best-IsBest results g r e =
    let l = less g (first_index results) in
    first_usable-IsBest g (first_index results) results (rank results g) r
      (unfold rank in All-sort l l (λ x. In x results) results (All-In results results (λ x i. i)))
      (rank-IsSorted results g) (unfold rank in λ q i. sort-In l q results i) e

-- `Best` takes none only if no node is usable.
pub best-unusable :
    (results : List NodeResult) (g : Text)
    → best results g ≡ none
    → (q : NodeResult) → In q results
    → usable q ≡ false
unfolding best
best-unusable results g e q i =
    first_usable-none g (first_index results) (rank results g) (rank-IsSorted results g) e q
      (unfold rank in sort-In (less g (first_index results)) q results i)
