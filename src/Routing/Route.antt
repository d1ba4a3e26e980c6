-- ===== src/Routing/Route.antt =====
-- core/routing/route.go: the rules of the route and its final outbound. A rule is the JSON object
-- that the source builds for it, with the fields that vary.
pub mod KillSwitch
use tenebra.Prelude.{
  Bool, true, false, not, ◌&&◌, List, [], ◌∷◌, ◌++◌, Text, codes, text_eq, if◌then◌else◌,
}
use tenebra.Routing.Options.{
  Options, mode_direct, split_include, direct_pin_allowed, direct_rule_suffixes,
}
use tenebra.Routing.Files.{Disk, smart_geo_active, rule_set_geoip_ru, rule_set_geosite_ru}
use tenebra.Routing.Presets.{
  is_empty, direct_split_apps, voice_direct_active, voice_port_range, zapret_direct_suffixes,
  proxy_suffixes_with_presets,
}

abbrev pub tag_proxy : Text
tag_proxy = codes "proxy"

abbrev pub tag_direct : Text
tag_direct = codes "direct"

-- What a rule asks of a connection. `udp_ports` is the network "udp" with a port range.
pub data Match : Type 0 where
  process_name domain_suffix rule_set udp_ports : List Text → Match
  ip_is_private : Match

pub data Rule : Type 0 where
  sniff hijack_dns : Rule
  route : Match → Text → Rule

-- A rule for a list, which is left out for an empty one.
abbrev pub pin : (List Text → Match) → List Text → Text → List Rule
pin m ts outbound = if is_empty ts then [] else route (m ts) outbound ∷ []

abbrev pub rule_if : Bool → Rule → List Rule
rule_if b r = if b then r ∷ [] else []

-- `lanBypassActive`.
unfoldable pub lan_bypass_active : Options → Bool
lan_bypass_active o = o.bypass_lan && direct_pin_allowed o

-- The test of `FinalOutbound`, and `includeOnly` of `RouteRules`.
unfoldable pub include_only : Options → Bool
include_only o = text_eq o.split_mode split_include && not (is_empty o.split_apps)

-- The switch on the split mode.
unfoldable pub split_rules : Options → List Rule
split_rules o =
    if text_eq o.split_mode split_include
    then pin process_name o.split_apps tag_proxy
    else pin process_name (direct_split_apps o) tag_direct

abbrev pub geo_rule : Rule
geo_rule = route (rule_set (rule_set_geoip_ru ∷ rule_set_geosite_ru ∷ [])) tag_direct

-- `RouteRules`.
unfoldable pub route_rules : Disk → Options → List Rule
unfolding split_rules lan_bypass_active include_only
route_rules d o =
    (sniff ∷ hijack_dns ∷ [])
    ++ (split_rules o
        ++ (rule_if (voice_direct_active o) (route (udp_ports (voice_port_range ∷ [])) tag_direct)
            ++ (pin domain_suffix (direct_rule_suffixes o) tag_direct
                ++ (pin domain_suffix (zapret_direct_suffixes o) tag_direct
                    ++ (pin domain_suffix (proxy_suffixes_with_presets o) tag_proxy
                        ++ (rule_if (not (include_only o) && smart_geo_active d o) geo_rule
                            ++ rule_if (lan_bypass_active o) (route ip_is_private tag_direct)))))))

-- `FinalOutbound`.
unfoldable pub final_outbound : Options → Text
unfolding include_only
final_outbound o =
    if include_only o
    then tag_direct
    else if text_eq o.mode mode_direct
    then tag_direct
    else tag_proxy

-- `DefaultDomainResolver`: the server that it names.
abbrev pub default_domain_resolver : Text
default_domain_resolver = codes "dns-direct"
