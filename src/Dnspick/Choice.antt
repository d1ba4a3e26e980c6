-- ===== src/Dnspick/Choice.antt =====
-- `Best` of core/dnspick/dnspick.go, against the measurements that it is given.
use tenebra.Prelude.{ℕ, true, false, none, some, List, [], ◌∷◌, Text, le_int, In, ◌≡◌, arith}
use tenebra.Prelude.Sort.{All, All-sort, IsStrictWeak, IsSorted, sort_stable-IsSorted}
use tenebra.Prelude.Sort.Elements.{sort-In, All-In, first-NoneBelow}
use tenebra.Dnspick.{
  Candidate, Result, encrypted, first_index, less, rank, best, first_ok, same_bool,
}

pub less-weak : (idx : Text → ℕ) → IsStrictWeak (less idx)
unfolding less same_bool
less-weak idx = record { asym = λ x y h. ground arith; trans = λ x y z h k. ground arith }

-- `Rank` keeps the results, and in its order no result is better than one before it.
pub rank-IsSorted : (results : List Result) → IsSorted (less (first_index results)) (rank results)
unfolding rank
rank-IsSorted results = sort_stable-IsSorted (less-weak (first_index results)) results

-- No working result is better than `r`.
pub record IsBest (results : List Result) (r : Result) : Type 0 where
  pub measured : In r results
  pub works : r.ok ≡ true
  pub safest :
      (q : Result)
      → In q results
      → q.ok ≡ true
      → encrypted q.candidate.kind ≡ true
      → encrypted r.candidate.kind ≡ true
  pub fastest :
      (q : Result)
      → In q results
      → q.ok ≡ true
      → encrypted q.candidate.kind ≡ encrypted r.candidate.kind
      → le_int r.rtt_ms q.rtt_ms ≡ true

module _ (idx : Text → ℕ) where
  first_ok-IsBest :
      (results ranked : List Result) (c : Candidate)
      → All (λ x. In x results) ranked
      → IsSorted (less idx) ranked
      → ((q : Result) → In q results → In q ranked)
      → first_ok ranked ≡ some c
      → (r : Result) × (r.candidate ≡ c) × IsBest results r
  unfolding first_ok less same_bool
  first_ok-IsBest results [] c mine sorted theirs e = cc
  first_ok-IsBest results (r ∷ rs) c mine sorted theirs e =
      let below = λ (q : Result) (i : In q results).
        first-NoneBelow (less-weak idx) q r rs sorted (theirs q i) in
      let works : r.ok ≡ true = ground arith in
      (
        r,
        ground arith,
        record {
          measured = mine.0;
          works = works;
          safest = λ q i up enc. ground (arith, below q i);
          fastest = λ q i up same. ground (arith, below q i);
        },
      )

  first_ok-none :
      (ranked : List Result)
      → IsSorted (less idx) ranked
      → first_ok ranked ≡ none
      → (q : Result) → In q ranked
      → q.ok ≡ false
  unfolding first_ok less same_bool
  first_ok-none [] sorted e q i = absurd i
  first_ok-none (r ∷ rs) sorted e q i =
      ground (arith, first-NoneBelow (less-weak idx) q r rs sorted i)

-- A resolver that `Best` takes was measured and works; it is encrypted if any working one is, and
-- of the working ones that are as safe none has a shorter round trip.
pub best-some :
    (results : List Result) (c : Candidate)
    → best results ≡ some c
    → (r : Result) × (r.candidate ≡ c) × IsBest results r
unfolding best
best-some results c e =
    first_ok-IsBest (first_index results) results (rank results) c
      (unfold rank in
        All-sort (less (first_index results)) (less (first_index results)) (λ x. In x results)
          results (All-In results results (λ x i. i)))
      (rank-IsSorted results)
      (unfold rank in λ q i. sort-In (less (first_index results)) q results i) e

-- `Best` takes none only if every candidate failed.
pub best-none :
    (results : List Result) → best results ≡ none → (q : Result) → In q results → q.ok ≡ false
unfolding best
best-none results e q i =
    first_ok-none (first_index results) (rank results) (rank-IsSorted results) e q
      (unfold rank in sort-In (less (first_index results)) q results i)
