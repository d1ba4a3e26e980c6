-- ===== src/Fallback/Machine.antt =====
-- core/fallback/fallback.go: the walk over the candidates. An index into the candidates is kept
-- together with the candidate that it stands for. `rtt` is a map of int64 values.
pub mod Order
pub mod Slots
pub mod Preference
pub mod Latency
pub mod Walk
use tenebra.Prelude.{
  ℕ, zero, suc, ◌+◌, ◌^◌, Bool, true, false, not, ◌&&◌, Option, none, some, List, [], ◌∷◌, ◌++◌,
  map, ℤ, pos, negsuc, Text, codes, text_eq, lookup, ltb, leb, ◌==◌, if◌then◌else◌, length,
  get_elem?, keep,
}
use tenebra.Prelude.Sort.{sort_stable}
use tenebra.Model.{Protocol, vless, hysteria2, amnezia_wg, Node}
use tenebra.Fallback.LastGood.{LastGood}

abbrev pub default_order : List Protocol
default_order = vless ∷ hysteria2 ∷ amnezia_wg ∷ []

pub record Attempt : Type 0 where
  pub node_id : Text
  pub node : Node

-- 1 << 62.
abbrev pub unreachable_rtt : ℕ
unreachable_rtt = 2 ^ 62

pub record Machine (S : Type 0) : Type 0 where
  pub profile_id : Text
  pub last_good : Option S
  pub order : List Attempt
  pub cursor : ℕ
  pub candidates : List Attempt
  pub pref : List Protocol
  pub by_latency : Bool
  pub latency : List (Text × ℤ)

-- A candidate with its index.
abbrev pub Slot : Type 0
Slot = ℕ × Attempt

unfoldable pub indexed : ℕ → List Attempt → List Slot
indexed i [] = []
indexed i (a ∷ as') = (i, a) ∷ indexed (suc i) as'

-- The search loop of `rebuild`: the first index whose ID is the last good one; -1 is `none`.
unfoldable pub index_of : Text → ℕ → List Attempt → Option ℕ
index_of id i [] = none
index_of id i (a ∷ as') = if text_eq a.node_id id then some i else index_of id (suc i) as'

abbrev pub is_index : Option ℕ → ℕ → Bool
is_index none i = false
is_index (some k) i = i == k

-- `rank` of `rebuildByPreference`.
unfoldable pub rank : List Protocol → Protocol → ℕ
rank [] p = 0
rank (q ∷ qs) p = if text_eq q p then 0 else suc (rank qs p)

unfoldable pub less_by_preference : List Protocol → Slot → Slot → Bool
less_by_preference pref a b =
    let ra = rank pref a.1.node.protocol in
    let rb = rank pref b.1.node.protocol in if not (ra == rb) then ltb ra rb else ltb a.0 b.0

-- `m.candidates[lastIdx]`, where there is one.
unfoldable pub lead : Option ℕ → List Attempt → List Attempt
lead none as' = []
lead (some k) as' = elim (get_elem? as' k) [ none ↦ [] | some a ↦ a ∷ [] ]

unfoldable pub order_by_preference : List Protocol → List Attempt → Option ℕ → List Attempt
order_by_preference pref cands last =
    let rest = keep (λ (s : Slot). not (is_index last s.0)) (indexed 0 cands) in
    lead last cands ++ map (λ s. s.1) (sort_stable (less_by_preference pref) rest)

usable_rtt : Option ℤ → ℕ
usable_rtt (some (pos (suc n))) = suc n
usable_rtt (some (pos zero)) = unreachable_rtt
usable_rtt (some (negsuc n)) = unreachable_rtt
usable_rtt none = unreachable_rtt

-- `rtt` of `rebuildByLatency`.
unfoldable pub rtt_of : List (Text × ℤ) → Attempt → ℕ
unfolding usable_rtt
rtt_of latency a = usable_rtt (lookup a.node_id latency)

unfoldable pub less_by_latency : List (Text × ℤ) → Option ℕ → Slot → Slot → Bool
less_by_latency latency last a b =
    let ra = rtt_of latency a.1 in
    let rb = rtt_of latency b.1 in
    if not (ra == rb)
    then ltb ra rb
    else if is_index last a.0
    then true
    else if is_index last b.0
    then false
    else ltb a.0 b.0

unfoldable pub order_by_latency : List (Text × ℤ) → List Attempt → Option ℕ → List Attempt
order_by_latency latency cands last =
    map (λ s. s.1) (sort_stable (less_by_latency latency last) (indexed 0 cands))

index_in : List Attempt → Option Text → Option ℕ
index_in cands none = none
index_in cands (some id) = index_of id 0 cands

module _ {S : Type 0} ⦃lg : LastGood S⦄ where
  -- The last good node of the profile, if the machine has a memory and it holds one.
  unfoldable pub remembered : Option S → Text → Option Text
  remembered none profile_id = none
  remembered (some s) profile_id = lg.get s profile_id

  unfoldable pub last_index : Machine S → Option ℕ
  unfolding index_in remembered
  last_index m = index_in m.candidates (remembered m.last_good m.profile_id)

  -- `rebuild`, with the two layouts.
  unfoldable pub rebuild : Machine S → Machine S
  unfolding last_index
  rebuild m = record m {
    order =
        if m.by_latency
        then order_by_latency m.latency m.candidates (last_index m)
        else order_by_preference m.pref m.candidates (last_index m);
    cursor = 0;
  }

  -- `New`.
  unfoldable pub new : Text → List Attempt → List Protocol → Option S → Machine S
  unfolding rebuild
  new profile_id candidates order last_good = rebuild (record {
    profile_id = profile_id;
    last_good = last_good;
    order = [];
    cursor = 0;
    candidates = candidates;
    pref = if length order == 0 then default_order else order;
    by_latency = false;
    latency = [];
  })

  -- `NewByLatency`.
  unfoldable pub new_by_latency : Text → List Attempt → List (Text × ℤ) → Option S → Machine S
  unfolding rebuild
  new_by_latency profile_id candidates rtt last_good = rebuild (record {
    profile_id = profile_id;
    last_good = last_good;
    order = [];
    cursor = 0;
    candidates = candidates;
    pref = [];
    by_latency = true;
    latency = rtt;
  })

  -- `Success`.
  unfoldable pub success : Machine S → Attempt → Machine S
  success m a = rebuild (record m {
    last_good = elim m.last_good [ none ↦ none | some s ↦ some (lg.set s m.profile_id a.node_id) ];
  })

  -- `Reset`.
  unfoldable pub reset : Machine S → Machine S
  reset m = rebuild m

module _ {S : Type 0} where
  -- `Next`.
  unfoldable pub next : Machine S → Option Attempt
  next m = get_elem? m.order m.cursor

  -- `Failure`: the argument is not read.
  unfoldable pub failure : Machine S → Attempt → Machine S
  failure m a = if ltb m.cursor (length m.order) then record m { cursor = m.cursor + 1 } else m

  -- `Exhausted`.
  unfoldable pub exhausted : Machine S → Bool
  exhausted m = leb (length m.order) m.cursor
