-- ===== src/Singbox/Nodes.antt =====
-- `buildNodes` and `SelectorTags` of core/singbox/builder.go, with `forceFragment`.
pub mod Distinct
pub mod Emitted
pub mod Fragment
pub mod Made
pub mod Indexed
use tenebra.Prelude.{
  ℕ, ◌+◌, true, Option, none, some, List, [], ◌∷◌, ◌++◌, map, Text, text_eq, if◌then◌else◌,
}
use tenebra.Prelude.Json.{Object}
use tenebra.Model.{amnezia_wg, Node, Tls}
use tenebra.Singbox.Validate.{Refusal, is_empty, validate_node}
use tenebra.Singbox.Tags.{Seen, Named, free_tag, uniq}
use tenebra.Singbox.Outbound.{
  Rendered, rendered, as_endpoint, empty_protocol, unsupported_protocol, outbound,
  wireguard_endpoint,
}

pub record NodeTag : Type 0 where
  pub index : ℕ
  pub tag : Text

abbrev pub tags_of : List NodeTag → List Text
tags_of sel = map (λ (t : NodeTag). t.tag) sel

-- What the loop has built.
pub record Nodes : Type 0 where
  pub seen : Seen
  pub outs : List Object
  pub endpoints : List Object
  pub sel : List NodeTag

-- A node that is skipped frees its tag.
abbrev pub skipped : Named → Nodes → Nodes
skipped r s = record s { seen = free_tag r.tag r.seen }

unfoldable pub add_endpoint : ℕ → Named → Nodes → Option Object → Nodes
add_endpoint i r s none = skipped r s
add_endpoint i r s (some ep) = record s {
  seen = r.seen;
  endpoints = s.endpoints ++ (ep ∷ []);
  sel = s.sel ++ (record { index = i; tag = r.tag } ∷ []);
}

unfoldable pub add_outbound : ℕ → Named → Nodes → Rendered → Nodes
add_outbound i r s (rendered o) = record s {
  seen = r.seen;
  outs = s.outs ++ (o ∷ []);
  sel = s.sel ++ (record { index = i; tag = r.tag } ∷ []);
}
add_outbound i r s as_endpoint = record s { seen = r.seen }
add_outbound i r s empty_protocol = skipped r s
add_outbound i r s unsupported_protocol = skipped r s

unfoldable pub add_validated : ℕ → Node → Named → Nodes → Option Refusal → Nodes
unfolding add_endpoint add_outbound
add_validated i n r s (some e) = skipped r s
add_validated i n r s none =
    if text_eq n.protocol amnezia_wg
    then add_endpoint i r s (wireguard_endpoint n r.tag)
    else add_outbound i r s (outbound n r.tag)

-- The body of the loop.
unfoldable pub add_node : ℕ → Node → Nodes → Nodes
unfolding add_validated
add_node i n s =
    if is_empty n.protocol then s else add_validated i n (uniq n.name s.seen) s (validate_node n)

unfoldable pub add_nodes : ℕ → List Node → Nodes → Nodes
add_nodes i [] s = s
add_nodes i (n ∷ ns) s = add_nodes (i + 1) ns (add_node i n s)

abbrev pub no_nodes : Nodes
no_nodes = record { seen = []; outs = []; endpoints = []; sel = [] }

-- `buildNodes`; its error is always nil.
unfoldable pub build_nodes : List Node → Nodes
unfolding add_nodes
build_nodes nodes = add_nodes 0 nodes no_nodes

-- `SelectorTags`.
unfoldable pub selector_tags : List Node → List NodeTag
selector_tags nodes = (build_nodes nodes).sel

abbrev pub fragmented : Option Tls → Option Tls
fragmented none = none
fragmented (some t) = some (record t { fragment = true })

-- `forceFragment`.
unfoldable pub force_fragment : List Node → List Node
force_fragment nodes = map (λ (n : Node). record n { tls = fragmented n.tls }) nodes
