-- ===== src/Control/Tags.antt =====
-- The tag of each server of a profile: `serverTags`, `resolveMultihop` and
-- `validateMultihopProfile` of core/control/daemon.go, and `NodeTags` of core-bridge/tags.go. The
-- closure `uniq` and `sanitizeTag` are the builder's, word for word.
pub mod Mirror
pub mod Selected
use tenebra.Prelude.{
  Bool, not, ◌||◌, Option, none, some, List, [], ◌∷◌, map, any, Text, codes, text_eq, lookup,
  insert, get_elem?, if◌then◌else◌,
}
use tenebra.Model.{Node, Multihop, valid}
use tenebra.Profile.{Server, Profile}
use tenebra.Routing.Options.{Options}
use tenebra.Singbox.Validate.{is_empty, is_valid_node}
use tenebra.Singbox.Tags.{Seen, Named, free_tag, uniq}
use tenebra.Singbox.Nodes.{NodeTag, selector_tags}
use tenebra.Singbox.Build.{ChainError, validate_multihop}
use tenebra.Control.Candidates.{known_protocol}

pub record Tagging : Type 0 where
  pub seen : Seen
  pub tags : List (Text × Text)

-- The server has no tag, and the one that was drawn is free again.
abbrev pub untagged : Named → Tagging → Tagging
untagged r w = record w { seen = free_tag r.tag r.seen }

unfoldable pub tag_known : Server → Named → Tagging → Tagging
tag_known s r w =
    if not (is_valid_node s.node)
    then untagged r w
    else if not (known_protocol s.node.protocol)
    then untagged r w
    else record { seen = r.seen; tags = insert s.id r.tag w.tags }

-- The body of the loop.
unfoldable pub tag_server : Server → Tagging → Tagging
unfolding tag_known
tag_server s w = if is_empty s.node.protocol then w else tag_known s (uniq s.node.name w.seen) w

unfoldable pub tag_servers : List Server → Tagging → Tagging
tag_servers [] w = w
tag_servers (s ∷ ss) w = tag_servers ss (tag_server s w)

-- `serverTags`.
unfoldable pub server_tags : Profile → List (Text × Text)
unfolding tag_servers
server_tags p = (tag_servers p.servers (record { seen = []; tags = [] })).tags

-- `profileNodes`.
abbrev pub profile_nodes : Profile → List Node
profile_nodes p = map (λ (s : Server). s.node) p.servers

-- `tagOfID[req.Profile.Servers[nt.Index].ID] = nt.Tag`. An index is never out of range.
unfoldable pub put_tag : List Server → NodeTag → List (Text × Text) → List (Text × Text)
put_tag servers nt tags = elim (get_elem? servers nt.index) [
  | none ↦ tags
  | some s ↦ insert s.id nt.tag tags
]

unfoldable pub put_tags : List Server → List NodeTag → List (Text × Text) → List (Text × Text)
put_tags servers [] tags = tags
put_tags servers (nt ∷ nts) tags = put_tags servers nts (put_tag servers nt tags)

-- `NodeTags`, between its JSON request and its JSON answer.
unfoldable pub node_tags : Profile → List (Text × Text)
unfolding put_tags put_tag
node_tags p = put_tags p.servers (selector_tags (profile_nodes p)) []

-- `tags[id]`.
unfoldable pub or_empty : Option Text → Text
or_empty none = codes ""
or_empty (some t) = t

unfoldable pub tag_for : List (Text × Text) → Text → Text
unfolding or_empty
tag_for tags id = or_empty (lookup id tags)

-- `hasServer`.
unfoldable pub has_server : Profile → Text → Bool
has_server p id = any (λ (s : Server). text_eq s.id id) p.servers

pub data MultihopError : Type 0 where
  not_distinct not_in_profile : MultihopError
  not_a_chain : ChainError → MultihopError

refused_chain : Option ChainError → Option MultihopError
refused_chain none = none
refused_chain (some e) = some (not_a_chain e)

-- `validateMultihopProfile`.
unfoldable pub validate_multihop_profile : Profile → Multihop → Option MultihopError
unfolding has_server refused_chain
validate_multihop_profile p mh =
    if not mh.enabled
    then none
    else if not (valid mh)
    then some not_distinct
    else if not (has_server p mh.entry_id) || not (has_server p mh.exit_id)
    then some not_in_profile
    else refused_chain (
        validate_multihop (profile_nodes p) (tag_for (server_tags p) mh.entry_id)
          (tag_for (server_tags p) mh.exit_id))

-- `resolveMultihop`.
unfoldable pub resolve_multihop : Options → Multihop → List (Text × Text) → Options
resolve_multihop ro mh tags = record ro {
  multihop = mh.enabled;
  multihop_entry = tag_for tags mh.entry_id;
  multihop_exit = tag_for tags mh.exit_id;
}
