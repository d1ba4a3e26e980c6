-- ===== src/Bridge/Order.antt =====
-- `OrderNodes` of core-bridge/order.go, between its JSON request and its JSON answer.
pub mod Exhaustive
use tenebra.Prelude.{
  Bool, Option, none, some, List, [], ◌∷◌, map, length, Text, ℤ, ◌==◌, if◌then◌else◌,
}
use tenebra.Profile.{Server, Profile}
use tenebra.Fallback.LastGood.{MemLastGood, new_mem_last_good, set, mem_last_good}
use tenebra.Fallback.Machine.{Attempt, Machine, new, new_by_latency}
use tenebra.Singbox.Validate.{is_empty}
use tenebra.Singbox.Nodes.{NodeTag, selector_tags}
use tenebra.Control.Candidates.{attempt_of}
use tenebra.Control.Tags.{profile_nodes, node_tags, tag_for}
use tenebra.Prelude.{get_elem?}

-- `seedLastGood`.
unfoldable pub seed_last_good : Text → Text → Option MemLastGood
seed_last_good profile_id node_id =
    if is_empty node_id then none else some (set new_mem_last_good profile_id node_id)

-- The loop over the selected nodes. An index is never out of range.
unfoldable pub candidates_of : List Server → List NodeTag → List Attempt
candidates_of servers [] = []
candidates_of servers (nt ∷ nts) =
    let rest = candidates_of servers nts in
    elim (get_elem? servers nt.index) [ none ↦ rest | some s ↦ attempt_of s ∷ rest ]

unfoldable pub machine_for : Profile → Text → List (Text × ℤ) → List Attempt → Machine MemLastGood
unfolding seed_last_good
machine_for p last_good latency cands =
    if length latency == 0
    then new p.id cands [] (seed_last_good p.id last_good)
    else new_by_latency p.id cands latency (seed_last_good p.id last_good)

-- `OrderNodes`: the map of the tags is the one of `NodeTags`.
unfoldable pub order_nodes : Profile → Text → List (Text × ℤ) → List Text
unfolding candidates_of machine_for
order_nodes p last_good latency =
    let cands = candidates_of p.servers (selector_tags (profile_nodes p)) in
    map (λ (a : Attempt). tag_for (node_tags p) a.node_id)
      (machine_for p last_good latency cands).order
