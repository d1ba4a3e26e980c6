-- ===== src/Routing/Dns.antt =====
-- core/routing/dns.go: the rules of the dns block and its final server.
pub mod Mirror
pub mod Closed
pub mod Block
pub mod Server
use tenebra.Prelude.{
  Bool, true, false, List, [], ◌∷◌, ◌++◌, Text, codes, text_eq, ◌&&◌, not, if◌then◌else◌,
}
use tenebra.Routing.Options.{Options, mode_direct, split_include, direct_rule_suffixes}
use tenebra.Routing.Files.{
  Disk, smart_geo_active, ad_block_active, rule_set_geosite_ru, rule_set_geosite_ads,
}
use tenebra.Routing.Presets.{
  is_empty, direct_split_apps, zapret_direct_suffixes, proxy_suffixes_with_presets,
}
use tenebra.Routing.Route.{Match, process_name, domain_suffix, rule_set}

abbrev pub dns_remote_tag : Text
dns_remote_tag = codes "dns-remote"

abbrev pub dns_direct_tag : Text
dns_direct_tag = codes "dns-direct"

-- `reject` answers REFUSED, at any load.
pub data DnsRule : Type 0 where
  reject : Match → DnsRule
  resolve : Match → Text → DnsRule

abbrev pub resolve_by : (List Text → Match) → List Text → Text → List DnsRule
resolve_by m ts server = if is_empty ts then [] else resolve (m ts) server ∷ []

abbrev pub dns_rule_if : Bool → DnsRule → List DnsRule
dns_rule_if b r = if b then r ∷ [] else []

-- `dnsRejectRule`.
abbrev pub dns_reject_rule : Text → DnsRule
dns_reject_rule tag = reject (rule_set (tag ∷ []))

-- The rule for the apps that are pinned to the proxy.
unfoldable pub include_rule : Options → List DnsRule
include_rule o =
    dns_rule_if (text_eq o.split_mode split_include && not (is_empty o.split_apps))
      (resolve (process_name o.split_apps) dns_remote_tag)

-- `dnsRules`.
unfoldable pub dns_rules : Disk → Options → List DnsRule
unfolding include_rule
dns_rules d o =
    dns_rule_if (ad_block_active d o) (dns_reject_rule rule_set_geosite_ads)
    ++ (include_rule o
        ++ (resolve_by process_name (direct_split_apps o) dns_direct_tag
            ++ (resolve_by domain_suffix (direct_rule_suffixes o) dns_direct_tag
                ++ (resolve_by domain_suffix (zapret_direct_suffixes o) dns_direct_tag
                    ++ (resolve_by domain_suffix (proxy_suffixes_with_presets o) dns_remote_tag
                        ++ dns_rule_if (smart_geo_active d o)
                            (resolve (rule_set (rule_set_geosite_ru ∷ [])) dns_direct_tag))))))

-- `dnsFinal`.
unfoldable pub dns_final : Options → Text
dns_final o = if text_eq o.mode mode_direct then dns_direct_tag else dns_remote_tag

-- `strategy`, where the empty text leaves the field out.
unfoldable pub strategy : Options → Text
strategy o = if o.ipv4_only then codes "ipv4_only" else codes ""
