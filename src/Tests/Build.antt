-- ===== src/Tests/Build.antt =====
-- A profile with two servers of one name, and the configurations that are built from it.
use mathlib.Core.List.{Perm}
use tenebra.Prelude.{
  true, false, some, [], ◌∷◌, In, inl, inr, Text, codes, text_eq, text_ne, lookup, insert, pos, ◌≡◌,
  ◌↔◌, refl,
}
use tenebra.Prelude.Decimal.{decimal}
use tenebra.Prelude.Json.{object, get_field, put_some, put_field}
use tenebra.Prelude.Sort.{sort_stable}
use tenebra.Prelude.Sort.Elements.{Distinct}
use tenebra.Model.{vless, Node, Tls, Reality}
use tenebra.Profile.{Server, Profile}
use tenebra.Profile.Store.{blank}
use tenebra.Routing.Options.{Options, normalize, validate}
use tenebra.Routing.Suffixes.{trim_left, trim_right, clean, normalize_suffixes, valid_domain_suffix}
use tenebra.Singbox.Validate.{is_valid_node, validate_node}
use tenebra.Singbox.Tags.{uniq, sanitize_tag, count_of, count_up, candidate}
use tenebra.Singbox.Outbound.{
  outbound, vless_outbound, transport_object, reality_object, client_object, tls_object,
  enabled_tls,
}
use tenebra.Singbox.Outbound.Client.{IsClient, tls_object-IsClient}
use tenebra.Singbox.Nodes.{tags_of, selector_tags, build_nodes, add_node}
use tenebra.Singbox.Tun.{TunOptions, normalize_tun}
use tenebra.Singbox.Build.{
  Host, Config, build, over_nodes, built, config_of, set_detour, outbound_by_tag,
  validate_multihop_outbounds,
}
use tenebra.Singbox.Build.Selector.{
  HasSelector, build-HasSelector, all_tags, reserved, build-Distinct,
}
use tenebra.Singbox.Build.Chain.{IsChain, build-IsChain}
use tenebra.Control.Candidates.{known_protocol}
use tenebra.Control.Tags.{server_tags, tag_server, profile_nodes, node_tags}
use tenebra.Control.Tags.Mirror.{server_tags-node_tags}
use tenebra.Control.Tags.Selected.{Reaches, server_tags-Reaches}
use tenebra.Bridge.Order.{order_nodes}
use tenebra.Bridge.Order.Exhaustive.{ids_of, order_nodes-perm}
use tenebra.Tests.Control.{node_of}
use tenebra.Tests.Route.{disk, net, open_}

abbrev named : Text → Node
named name = record (node_of vless) { name = name }

abbrev first : Server
first = record { id = codes "a"; node = named (codes "n") }

abbrev second : Server
second = record { id = codes "b"; node = named (codes "n") }

abbrev profile : Profile
profile = record blank { servers = first ∷ second ∷ [] }

abbrev host : Host
host = record { net = net; disk = disk; tun_name = codes "tenebra"; secret = codes "s" }

abbrev tun : TunOptions
tun = record {
  mode = [];
  mixed_port = pos 0;
  interface_name = [];
  mtu = pos 0;
  stack = [];
  external_tun = false;
  clash_api_port = pos 0;
  address = [];
  address6 = [];
  cache_dir = [];
}

second_tagged : lookup (codes "b") (server_tags profile) ≡ some (codes "n-2")
unfolding lookup insert server_tags tag_server is_valid_node validate_node known_protocol uniq
    sanitize_tag decimal text_eq count_of count_up candidate trim_left trim_right
second_tagged = refl

-- What is built with the second server selected.
abbrev cfg : Config
cfg = config_of host (normalize open_) (normalize_tun (codes "tenebra") tun) [] (record {
  outs = vless_outbound first.node (codes "n") ∷ vless_outbound second.node (codes "n-2") ∷ [];
  members = codes "n" ∷ codes "n-2" ∷ [];
  default = codes "n-2";
})

cfg_built : build host (profile_nodes profile) (codes "n-2") open_ tun ≡ built cfg
unfolding build over_nodes normalize validate normalize_suffixes sort_stable clean
    valid_domain_suffix build_nodes add_node is_valid_node validate_node outbound uniq sanitize_tag
    decimal text_eq lookup insert count_of count_up candidate trim_left trim_right
cfg_built = refl

server_tags-Reaches_example : Reaches open_ profile (codes "b") (codes "n-2") cfg
server_tags-Reaches_example =
    server_tags-Reaches host profile (codes "b") (codes "n-2") open_ tun cfg second_tagged refl
      cfg_built

build-HasSelector_example : HasSelector cfg
build-HasSelector_example =
    build-HasSelector host (profile_nodes profile) (codes "n-2") open_ tun cfg cfg_built

build-Distinct_example :
    Distinct (all_tags cfg)
    ↔ ((t : Text) → In t reserved → In t (tags_of (selector_tags (profile_nodes profile))) → ⊥)
build-Distinct_example =
    build-Distinct host (profile_nodes profile) (codes "n-2") open_ tun cfg cfg_built

server_tags-node_tags_example : server_tags profile ≡ node_tags profile
server_tags-node_tags_example = server_tags-node_tags profile

-- A node may be called like the selector, and two outbounds then have its tag.
abbrev clashing : Config
clashing = config_of host (normalize open_) (normalize_tun (codes "tenebra") tun) [] (record {
  outs = vless_outbound (named (codes "proxy")) (codes "proxy") ∷ [];
  members = codes "proxy" ∷ [];
  default = codes "proxy";
})

clashing_built : build host (named (codes "proxy") ∷ []) (codes "proxy") open_ tun ≡ built clashing
unfolding build over_nodes normalize validate normalize_suffixes sort_stable clean
    valid_domain_suffix build_nodes add_node is_valid_node validate_node outbound uniq sanitize_tag
    decimal text_eq lookup insert count_of count_up candidate trim_left trim_right
clashing_built = refl

clashing_tags : Distinct (all_tags clashing) → ⊥
unfolding selector_tags build_nodes add_node validate_node outbound uniq sanitize_tag decimal
    text_eq lookup insert count_of trim_left trim_right
clashing_tags d =
    (build-Distinct host (named (codes "proxy") ∷ []) (codes "proxy") open_ tun clashing
        clashing_built).0
      d (codes "proxy") (inl refl) (inl refl)

abbrev chain : Options
chain = record open_ { multihop = true; multihop_entry = codes "n"; multihop_exit = codes "n-2" }

abbrev chained : Config
chained = config_of host (normalize chain) (normalize_tun (codes "tenebra") tun) [] (record {
  outs =
      set_detour
        (vless_outbound first.node (codes "n") ∷ vless_outbound second.node (codes "n-2") ∷ [])
        (codes "n-2") (codes "n");
  members = codes "n-2" ∷ [];
  default = codes "n-2";
})

chained_built : build host (profile_nodes profile) [] chain tun ≡ built chained
unfolding build over_nodes normalize validate normalize_suffixes sort_stable clean
    valid_domain_suffix build_nodes add_node is_valid_node validate_node outbound uniq sanitize_tag
    decimal text_eq lookup insert count_of count_up candidate trim_left trim_right
    validate_multihop_outbounds outbound_by_tag vless_outbound get_field put_some transport_object
    tls_object
chained_built = refl

build-IsChain_example : IsChain chain chained
build-IsChain_example =
    build-IsChain host (profile_nodes profile) [] chain tun chained refl chained_built

abbrev client : Reality
client = record { public_key = codes "k"; short_id = []; spider_x = [] }

abbrev tls : Tls
tls = record {
  enabled = true;
  server_name = codes "h";
  insecure = false;
  alpn = [];
  fingerprint = [];
  fragment = false;
  reality = some client;
}

tls_object-IsClient_example : IsClient (enabled_tls tls) (object (client_object client))
unfolding tls_object enabled_tls reality_object text_eq get_field put_some put_field
tls_object-IsClient_example =
    tls_object-IsClient (some tls) (enabled_tls tls) (object (client_object client)) refl refl

profile_ids : Distinct (ids_of profile.servers)
unfolding text_eq
profile_ids =
    (λ i. elim i [ inl e ↦ text_ne (codes "a") (codes "b") refl e | inr z ↦ z ], (λ i. i, tt))

order_nodes-perm_example :
    Perm (order_nodes profile (codes "b") []) (tags_of (selector_tags (profile_nodes profile)))
order_nodes-perm_example = order_nodes-perm profile (codes "b") [] profile_ids
