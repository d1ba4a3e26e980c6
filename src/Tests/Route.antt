-- ===== src/Tests/Route.antt =====
-- Smart mode with the kill switch, with the bypass, and without its geodata; and a resolver's
-- address.
use tenebra.Prelude.{
  true, false, some, [], ◌∷◌, ◌++◌, codes, text_eq, has_prefix, In, keep, pos, ◌≡◌, ◌≢◌, ◌⊎◌, ◌↔◌,
  inl, inr, refl,
}
use tenebra.Prelude.Sort.{sort_stable}
use tenebra.Routing.Suffixes.{normalize_suffixes}
use tenebra.Routing.Options.{Options, split_exclude, direct_pin_allowed, direct_rule_suffixes}
use tenebra.Routing.Files.{Disk, smart_geo_active, ad_block_active, rule_set_geosite_ru}
use tenebra.Routing.Presets.{
  direct_split_apps, games_direct_active, voice_direct_active, unblock_active,
  zapret_direct_suffixes, proxy_suffixes_with_presets,
}
use tenebra.Routing.Options.{proxy_rule_suffixes}
use tenebra.Routing.Presets.Services.{bypassed, services_split}
use tenebra.Routing.Route.{process_name, route, geo_rule, tag_direct, route_rules}
use tenebra.Routing.Route.KillSwitch.{route_rules-KillSwitch}
use tenebra.Routing.Dns.{dns_rules}
use tenebra.Routing.Dns.Mirror.{dns_rules-route_rules, resolves_by_name, twins}
use tenebra.Routing.Dns.Closed.{IsLoadable, route_names, dns_names, route_rule_sets-IsLoadable}
use tenebra.Routing.Dns.Server.{
  Net, dns_server, scheme_of, cut_path, valid_dns_server, valid_dns_host,
}
use tenebra.Routing.Dns.Server.Parsed.{IsPort, dns_server_valid}

-- Every path but an empty one is a file.
abbrev pub disk : Disk
disk = record { join = λ dir name. dir ++ (codes "/" ++ name); is_file = λ path. true }

abbrev pub armed : Options
armed = record {
  mode = codes "smart";
  bypass_lan = true;
  ipv4_only = false;
  kill_switch = true;
  tls_fragment = false;
  dns_remote = codes "tls://1.1.1.1";
  dns_direct = codes "udp://77.88.8.8";
  ad_block = true;
  zapret_active = true;
  zapret_covered = [];
  unblock_services = true;
  games_direct = true;
  voice_direct = true;
  split_mode = codes "exclude";
  split_apps = codes "steam.exe" ∷ [];
  rules_direct = codes "vk.com" ∷ [];
  rules_proxy = [];
  preset_ru_banking = true;
  preset_ru_gov = true;
  multihop = false;
  multihop_entry = [];
  multihop_exit = [];
  rule_set_dir = codes "geo";
}

abbrev pub open_ : Options
open_ = record armed { kill_switch = false }

steam_direct :
    In (route (process_name (codes "steam.exe" ∷ [])) tag_direct) (route_rules disk armed)
unfolding route_rules text_eq direct_split_apps games_direct_active direct_pin_allowed
steam_direct = inr (inr (inl refl))

route_rules-KillSwitch_example :
    ((process_name (codes "steam.exe" ∷ []) ≡ process_name armed.split_apps)
      × (armed.split_mode ≡ split_exclude))
    ⊎ ((route (process_name (codes "steam.exe" ∷ [])) tag_direct ≡ geo_rule)
        × (smart_geo_active disk armed ≡ true))
route_rules-KillSwitch_example =
    route_rules-KillSwitch disk armed (process_name (codes "steam.exe" ∷ [])) refl steam_direct

dns_rules-route_rules_example :
    keep resolves_by_name (dns_rules disk open_) ≡ twins (route_rules disk open_)
dns_rules-route_rules_example = dns_rules-route_rules disk open_

abbrev quiet : Options
quiet = record armed { unblock_services = false }

names_ru :
    In rule_set_geosite_ru
      (route_names (route_rules disk quiet) ++ dns_names (dns_rules disk quiet))
unfolding route_rules dns_rules text_eq direct_split_apps games_direct_active direct_pin_allowed
    normalize_suffixes voice_direct_active direct_rule_suffixes zapret_direct_suffixes
    proxy_suffixes_with_presets unblock_active proxy_rule_suffixes smart_geo_active ad_block_active
    sort_stable
names_ru = inr (inl refl)

route_rule_sets-IsLoadable_example : IsLoadable disk quiet rule_set_geosite_ru
route_rule_sets-IsLoadable_example =
    route_rule_sets-IsLoadable disk quiet rule_set_geosite_ru names_ru

unblocked : unblock_active open_ ≡ true
unfolding unblock_active text_eq
unblocked = refl

youtube_split :
    (In (codes "youtube.com") (zapret_direct_suffixes open_)
      ↔ (bypassed open_ (codes "youtube.com") ≡ true))
    × (In (codes "youtube.com") (proxy_suffixes_with_presets open_) ↔ (
        In (codes "youtube.com") (proxy_rule_suffixes open_)
        ⊎ (bypassed open_ (codes "youtube.com") ≡ false)))
youtube_split = services_split open_ (codes "youtube.com") unblocked (inl refl)

-- Every endpoint is 1.1.1.1:853, and every text is an IP address.
abbrev pub net : Net
net = record {
  split_host_port = λ s. some (codes "1.1.1.1", codes "853");
  parse_ip = λ s. true;
  atoi = λ s. some (pos 853);
}

named : codes "https://1.1.1.1/q" ≢ codes ""
named = cc

accepted : valid_dns_server net (codes "https://1.1.1.1/q") ≡ true
unfolding valid_dns_server text_eq has_prefix valid_dns_host
accepted = refl

dns_server_valid_example :
    ((dns_server net (codes "dns") (codes "https://1.1.1.1/q") (codes "")).kind
      ≡ (scheme_of (codes "https://1.1.1.1/q")).0)
    × ((dns_server net (codes "dns") (codes "https://1.1.1.1/q") (codes "")).path
        ≡ (cut_path (scheme_of (codes "https://1.1.1.1/q")).1).1)
    × (valid_dns_host net
          (dns_server net (codes "dns") (codes "https://1.1.1.1/q") (codes "")).server
        ≡ true)
    × IsPort (dns_server net (codes "dns") (codes "https://1.1.1.1/q") (codes "")).server_port
dns_server_valid_example =
    dns_server_valid net (codes "dns") (codes "https://1.1.1.1/q") (codes "") named accepted
