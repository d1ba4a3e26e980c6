-- ===== src/Singbox/Build.antt =====
-- `Build` of core/singbox/builder.go, the check of a chain (multihop.go), and what is read back of
-- a configuration. The secret of the run is given. The log block, which is constant, is left out.
pub mod Shaped
pub mod Selector
pub mod Chain
use tenebra.Prelude.{
  Bool, true, false, not, ◌&&◌, ◌||◌, Option, none, some, List, [], ◌∷◌, ◌++◌, map, any, Text,
  codes, text_eq, if◌then◌else◌,
}
use tenebra.Prelude.Decimal.{decimal_int}
use tenebra.Prelude.Json.{
  Json, text, flag, texts, Object, fields, get_field, put_field, put_some, text_of,
}
use tenebra.Model.{Node}
use tenebra.Routing.Options.{Options, Invalid, normalize, validate}
use tenebra.Routing.Files.{Disk, RuleSet, route_rule_sets}
use tenebra.Routing.Route.{
  Rule, route_rules, final_outbound, default_domain_resolver, tag_proxy, tag_direct,
}
use tenebra.Routing.Dns.Block.{DnsBlock, dns}
use tenebra.Routing.Dns.Server.{Net}
use tenebra.Singbox.Validate.{is_empty}
use tenebra.Singbox.Outbound.{tag_of, when}
use tenebra.Singbox.Nodes.{NodeTag, tags_of, Nodes, build_nodes, force_fragment}
use tenebra.Singbox.Tun.{TunOptions, normalize_tun, inbound}

abbrev pub tag_block : Text
tag_block = codes "block"

pub data ChainError : Type 0 where
  missing_pair same_node no_entry no_exit : ChainError

-- `outboundByTag`.
unfoldable pub outbound_by_tag : List Object → Text → Option Object
outbound_by_tag [] tag = none
outbound_by_tag (o ∷ os) tag =
    let rest = outbound_by_tag os tag in if text_eq (tag_of o) tag then some o else rest

unfoldable pub is_missing : Option Object → Bool
is_missing none = true
is_missing (some o) = false

-- `validateMultihopOutbounds`.
unfoldable pub validate_multihop_outbounds : List Object → Text → Text → Option ChainError
unfolding is_missing
validate_multihop_outbounds outs entry exit =
    if is_empty entry || is_empty exit
    then some missing_pair
    else if text_eq entry exit
    then some same_node
    else if is_missing (outbound_by_tag outs entry)
    then some no_entry
    else if is_missing (outbound_by_tag outs exit)
    then some no_exit
    else none

-- `ValidateMultihop`.
unfoldable pub validate_multihop : List Node → Text → Text → Option ChainError
validate_multihop nodes entry exit = validate_multihop_outbounds (build_nodes nodes).outs entry exit

-- `exitObj["detour"] = entry`: the object is the first one with the tag, and stays in its place.
unfoldable pub set_detour : List Object → Text → Text → List Object
set_detour [] exit entry = []
set_detour (o ∷ os) exit entry =
    let rest = set_detour os exit entry in
    if text_eq (tag_of o) exit then put_field (codes "detour") (text entry) o ∷ os else o ∷ rest

pub record RouteBlock : Type 0 where
  pub rules : List Rule
  pub final : Text
  pub auto_detect_interface : Bool
  pub default_domain_resolver : Text
  -- An empty list leaves the field out.
  pub rule_set : List RuleSet

-- `routeBlock`.
unfoldable pub route_block : Disk → Options → RouteBlock
route_block d ro = record {
  rules = route_rules d ro;
  final = final_outbound ro;
  auto_detect_interface = true;
  default_domain_resolver = default_domain_resolver;
  rule_set = route_rule_sets d ro;
}

-- `cacheFileBlock`.
unfoldable pub cache_file_block : Disk → Text → Object
cache_file_block d dir =
    put_some (codes "path") (when (not (is_empty dir)) (text (d.join dir (codes "cache.db"))))
      (fields ((codes "enabled", flag true) ∷ []))

pub record Config : Type 0 where
  pub dns : DnsBlock
  pub inbounds : List Object
  pub outbounds : List Object
  -- An empty list leaves the field out.
  pub endpoints : List Object
  pub route : RouteBlock
  pub external_controller : Text
  pub secret : Text
  pub cache_file : Object

pub data BuildError : Type 0 where
  invalid_options : Invalid → BuildError
  no_usable_nodes : BuildError
  bad_chain : ChainError → BuildError

pub data Built : Type 0 where
  built : Config → Built
  failed : BuildError → Built

-- What `Build` reads of its surroundings, and the secret that it draws.
pub record Host : Type 0 where
  pub net : Net
  pub disk : Disk
  pub tun_name : Text
  pub secret : Text

-- The shape of the selector, and the outbounds that it stands in front of.
pub record Shape : Type 0 where
  pub outs : List Object
  pub members : List Text
  pub default : Text

unfoldable pub selector : List Text → Text → Object
selector members default = fields (
    (codes "type", text (codes "selector"))
    ∷ (codes "tag", text tag_proxy)
    ∷ (codes "outbounds", texts members)
    ∷ (codes "default", text default)
    ∷ (codes "interrupt_exist_connections", flag false)
    ∷ [])

abbrev pub direct_outbound : Object
direct_outbound =
    fields ((codes "type", text (codes "direct")) ∷ (codes "tag", text tag_direct) ∷ [])

abbrev pub block_outbound : Object
block_outbound = fields ((codes "type", text (codes "block")) ∷ (codes "tag", text tag_block) ∷ [])

unfoldable pub config_of : Host → Options → TunOptions → List Object → Shape → Config
config_of h ro tun endpoints s = record {
  dns = dns h.net h.disk ro;
  inbounds = inbound tun ro.kill_switch ∷ [];
  outbounds = selector s.members s.default ∷ (s.outs ++ (direct_outbound ∷ block_outbound ∷ []));
  endpoints = endpoints;
  route = route_block h.disk ro;
  external_controller = codes "127.0.0.1:" ++ decimal_int tun.clash_api_port;
  secret = h.secret;
  cache_file = cache_file_block h.disk tun.cache_dir;
}

-- The chain of two nodes, where its check leaves no error.
chained : Host → Options → TunOptions → Nodes → Option ChainError → Built
chained h ro tun n (some e) = failed (bad_chain e)
chained h ro tun n none = built (
    config_of h ro tun n.endpoints (record {
      outs = set_detour n.outs ro.multihop_exit ro.multihop_entry;
      members = ro.multihop_exit ∷ [];
      default = ro.multihop_exit;
    }))

-- One node at a time; `first` is the first of the tags.
unfoldable pub unchained : Host → Text → Options → TunOptions → Nodes → Text → Built
unchained h selected_tag ro tun n first = built (
    config_of h ro tun n.endpoints (record {
      outs = n.outs;
      members = tags_of n.sel;
      default =
          if is_empty selected_tag || not (any (text_eq selected_tag) (tags_of n.sel))
          then first
          else selected_tag;
    }))

unfoldable pub over_nodes : Host → Text → Options → TunOptions → Nodes → Text → Built
unfolding chained unchained
over_nodes h selected_tag ro tun n first =
    if ro.multihop
    then chained h ro tun n (validate_multihop_outbounds n.outs ro.multihop_entry ro.multihop_exit)
    else unchained h selected_tag ro tun n first

with_first : Host → Text → Options → TunOptions → Nodes → List NodeTag → Built
with_first h selected_tag ro tun n [] = failed no_usable_nodes
with_first h selected_tag ro tun n (t ∷ ts) = over_nodes h selected_tag ro tun n t.tag

abbrev pub nodes_for : Options → List Node → List Node
nodes_for ro nodes = if ro.tls_fragment then force_fragment nodes else nodes

validated : Host → List Node → Text → Options → TunOptions → Option Invalid → Built
unfolding with_first
validated h nodes selected_tag ro tun (some e) = failed (invalid_options e)
validated h nodes selected_tag ro tun none =
    let n = build_nodes (nodes_for ro nodes) in with_first h selected_tag ro tun n n.sel

-- `Build`.
unfoldable pub build : Host → List Node → Text → Options → TunOptions → Built
unfolding validated
build h nodes selected_tag ro tun =
    validated h nodes selected_tag (normalize ro) (normalize_tun h.tun_name tun)
      (validate (normalize ro))

-- `proxySelector`.
unfoldable pub proxy_selector : List Object → Option Object
proxy_selector [] = none
proxy_selector (o ∷ os) =
    let rest = proxy_selector os in
    if text_eq (text_of (get_field (codes "type") o)) (codes "selector")
      && text_eq (tag_of o) tag_proxy
    then some o
    else rest

default_of : Option Object → Option Text
default_of none = none
default_of (some o) =
    let tag = text_of (get_field (codes "default") o) in if is_empty tag then none else some tag

-- `SelectorDefault`.
unfoldable pub selector_default : Config → Option Text
unfolding default_of proxy_selector
selector_default cfg = default_of (proxy_selector cfg.outbounds)

texts_of : Option Json → List Text
texts_of (some (texts ts)) = ts
texts_of _ = []

members_of : Option Object → List Text
unfolding texts_of
members_of none = []
members_of (some o) = texts_of (get_field (codes "outbounds") o)

-- `SelectorMembers`.
unfoldable pub selector_members : Config → List Text
unfolding members_of proxy_selector
selector_members cfg = members_of (proxy_selector cfg.outbounds)
