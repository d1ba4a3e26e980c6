-- ===== src/Control/Candidates.antt =====
-- core/control/daemon.go: the candidates of a connection, and the nodes of one attempt.
pub mod Laws
use tenebra.Prelude.{
  Bool, true, false, not, ◌&&◌, ◌||◌, Option, none, some, List, [], ◌∷◌, Text, codes, text_eq, any,
  keep, map, if◌then◌else◌,
}
use tenebra.Model.{Protocol, vless, hysteria2, shadowsocks, trojan, vmess, amnezia_wg, Node}
use tenebra.Profile.{Server, Profile}
use tenebra.Fallback.Machine.{Attempt}
use tenebra.Fallback.Strategy.{Strategy, is_default, apply_to}
use tenebra.Singbox.Validate.{is_valid_node}

-- `knownProtocol`.
unfoldable pub known_protocol : Protocol → Bool
known_protocol p =
    any (text_eq p) (vless ∷ hysteria2 ∷ shadowsocks ∷ trojan ∷ vmess ∷ amnezia_wg ∷ [])

-- `renderable`.
unfoldable pub renderable : Server → Bool
unfolding known_protocol
renderable s =
    not (text_eq s.node.protocol (codes ""))
    && known_protocol s.node.protocol
    && is_valid_node s.node

pub data Candidates : Type 0 where
  found : List Attempt → Candidates
  unsupported_protocol node_not_found no_usable_servers : Candidates

abbrev pub attempt_of : Server → Attempt
attempt_of s = record { node_id = s.id; node = s.node }

-- The loop for an explicit node.
unfoldable pub only_explicit : List Server → Text → Candidates
only_explicit [] explicit = node_not_found
only_explicit (s ∷ ss) explicit =
    let rest = only_explicit ss explicit in
    if text_eq s.id explicit
    then (if not (renderable s) then unsupported_protocol else found (attempt_of s ∷ []))
    else rest

some_found : List Attempt → Candidates
some_found [] = no_usable_servers
some_found (c ∷ cs) = found (c ∷ cs)

-- `buildCandidates`.
unfoldable pub build_candidates : Profile → Text → Candidates
unfolding some_found only_explicit renderable
build_candidates p explicit =
    if not (text_eq explicit (codes ""))
    then only_explicit p.servers explicit
    else some_found (map attempt_of (keep renderable p.servers))

-- The loop of `applyStrategyToNodes`: a node without an ID at its index stays.
unfoldable pub reshape_target : List Node → List Text → Text → Strategy → List Node
reshape_target [] ids target strat = []
reshape_target (n ∷ ns) [] target strat = n ∷ ns
reshape_target (n ∷ ns) (id ∷ ids) target strat =
    let rest = reshape_target ns ids target strat in
    (if text_eq id target then apply_to strat n else n) ∷ rest

-- `applyStrategyToNodes`.
unfoldable pub apply_strategy_to_nodes : List Node → List Text → Text → Strategy → List Node
unfolding reshape_target
apply_strategy_to_nodes nodes node_ids target strat =
    if is_default strat then nodes else reshape_target nodes node_ids target strat
