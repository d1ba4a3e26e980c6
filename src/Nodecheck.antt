-- ===== src/Nodecheck.antt =====
-- core/nodecheck/nodecheck.go: the order of nodes by what works through them. The Go map from an ID
-- to the first index that has it is a search for that index.
pub mod Choice
use tenebra.Prelude.{
  ℕ, zero, suc, ◌*◌, ◌-◌, ◌/◌, ◌^◌, Bool, true, false, ◌&&◌, not, Option, none, some, List, [], ◌∷◌,
  Text, codes, text_eq, ℤ, pos, lt_int, eq_int, ltb, ◌==◌, length, keep, map, get_elem?,
  if◌then◌else◌,
}
use tenebra.Prelude.Sort.{sort_stable}

abbrev pub Stage : Type 0
Stage = Text

abbrev pub stage_ok : Stage
stage_ok = codes "ok"

abbrev pub stage_dial : Stage
stage_dial = codes "dial"

abbrev pub stage_handshake : Stage
stage_handshake = codes "handshake"

abbrev pub stage_probe : Stage
stage_probe = codes "probe"

pub record TargetResult : Type 0 where
  pub target : Text
  pub stage : Stage
  pub rtt_ms : ℤ

-- `TargetResult.OK`.
unfoldable pub is_ok : TargetResult → Bool
is_ok t = text_eq t.stage stage_ok

pub record NodeResult : Type 0 where
  pub node_id : Text
  pub targets : List TargetResult

-- `NodeResult.okCount`.
unfoldable pub ok_count : NodeResult → ℕ
ok_count n = length (keep is_ok n.targets)

-- `NodeResult.Usable`.
unfoldable pub usable : NodeResult → Bool
unfolding ok_count
usable n = if length n.targets == 0 then false else ltb (length n.targets) (ok_count n * 2)

-- `Unreachable`.
abbrev pub unreachable_score : ℤ
unreachable_score = pos (2 ^ 62 - 1)

-- The round trips that `Score` collects.
unfoldable pub samples : NodeResult → List ℤ
samples n = map (λ t. t.rtt_ms) (keep (λ t. is_ok t && lt_int (pos 0) t.rtt_ms) n.targets)

-- The lower of the middle samples; an index out of range does not occur.
or_unreachable : Option ℤ → ℤ
or_unreachable none = unreachable_score
or_unreachable (some ms) = ms

unfoldable pub lower_median : List ℤ → ℤ
unfolding or_unreachable
lower_median rtts =
    if length rtts == 0
    then unreachable_score
    else or_unreachable (get_elem? (sort_stable lt_int rtts) ((length rtts - 1) / 2))

-- `NodeResult.Score`.
unfoldable pub score : NodeResult → ℤ
unfolding lower_median samples
score n = lower_median (samples n)

-- `idx[id]`: the first index of the ID; 0 is the map's answer for a missing key.
unfoldable pub first_index : List NodeResult → Text → ℕ
first_index [] id = 0
first_index (r ∷ rs) id =
    let rest = first_index rs id in if text_eq r.node_id id then 0 else suc rest

-- The last two keys of `Rank`: the last good node, and the order of the input.
unfoldable pub less_at_tie : Text → (Text → ℕ) → Text → Text → Bool
less_at_tie last_good idx a b =
    if not (text_eq last_good (codes "")) && not (text_eq a b) && text_eq a last_good
    then true
    else if not (text_eq last_good (codes "")) && not (text_eq a b) && text_eq b last_good
    then false
    else ltb (idx a) (idx b)

-- The comparison of `Rank`, on the keys of the two results.
unfoldable pub less_by_keys : Bool → Bool → ℕ → ℕ → ℤ → ℤ → Bool → Bool
less_by_keys ua ub ca cb sa sb tie =
    if not (if ua then ub else not ub)
    then ua
    else if not (ca == cb)
    then ltb cb ca
    else if not (eq_int sa sb)
    then lt_int sa sb
    else tie

unfoldable pub less : Text → (Text → ℕ) → NodeResult → NodeResult → Bool
unfolding less_by_keys
less last_good idx ra rb =
    less_by_keys (usable ra) (usable rb) (ok_count ra) (ok_count rb) (score ra) (score rb)
      (less_at_tie last_good idx ra.node_id rb.node_id)

-- `Rank`.
unfoldable pub rank : List NodeResult → Text → List NodeResult
rank results last_good = sort_stable (less last_good (first_index results)) results

first_usable : List NodeResult → Option NodeResult
first_usable [] = none
first_usable (r ∷ rs) = if usable r then some r else none

-- `Best`.
unfoldable pub best : List NodeResult → Text → Option NodeResult
unfolding first_usable
best results last_good = first_usable (rank results last_good)
