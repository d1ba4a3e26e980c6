-- ===== src/Routing/Dns/Mirror.antt =====
-- `dnsRules` of core/routing/dns.go next to `RouteRules` of route.go.
use mathlib.Core.List.{append-nil, append_assoc}
use tenebra.Prelude.{
  Bool, true, false, not, ◌&&◌, Bool-cases, List, [], ◌∷◌, ◌++◌, Text, text_eq, keep, ◌≡◌, refl, ap,
  ◌∙◌, sym, arith, if◌then◌else◌, inl, inr,
}
use tenebra.Routing.Options.{Options, split_include}
use tenebra.Routing.Files.{
  Disk, smart_geo_active, ad_block_active, rule_set_geoip_ru, rule_set_geosite_ru,
  rule_set_geosite_ads,
}
use tenebra.Routing.Presets.{is_empty, direct_split_apps, voice_direct_active, voice_port_range}
use tenebra.Routing.Route.{
  Match, process_name, domain_suffix, rule_set, udp_ports, ip_is_private, Rule, route, tag_direct,
  tag_proxy, sniff, hijack_dns, split_rules, route_rules, include_only, lan_bypass_active, pin,
  rule_if,
}
use tenebra.Routing.Dns.{
  DnsRule, reject, resolve, resolve_by, dns_rule_if, dns_direct_tag, dns_remote_tag, include_rule,
  dns_rules, dns_reject_rule,
}

-- The resolver next to an outbound.
abbrev pub resolver_of : Text → Text
resolver_of outbound = if text_eq outbound tag_direct then dns_direct_tag else dns_remote_tag

-- Whether a rule matches names: of processes, or of domains by suffix.
abbrev pub by_name : Match → Bool
by_name (process_name ts) = true
by_name (domain_suffix ts) = true
by_name (rule_set ts) = false
by_name (udp_ports ts) = false
by_name ip_is_private = false

abbrev pub resolves_by_name : DnsRule → Bool
resolves_by_name (reject m) = false
resolves_by_name (resolve m server) = by_name m

-- The rules of the route that match names, each with the resolver next to its outbound.
abbrev pub twins : List Rule → List DnsRule
twins [] = []
twins (sniff ∷ rs) = twins rs
twins (hijack_dns ∷ rs) = twins rs
twins (route m outbound ∷ rs) =
    let rest = twins rs in if by_name m then resolve m (resolver_of outbound) ∷ rest else rest

twins-append : (rs qs : List Rule) → twins (rs ++ qs) ≡ twins rs ++ twins qs
twins-append [] qs = refl
twins-append (sniff ∷ rs) qs = twins-append rs qs
twins-append (hijack_dns ∷ rs) qs = twins-append rs qs
twins-append (route m outbound ∷ rs) qs = ground (arith, twins-append rs qs)

keep-append :
    (p : DnsRule → Bool) (rs qs : List DnsRule) → keep p (rs ++ qs) ≡ keep p rs ++ keep p qs
keep-append p [] qs = refl
keep-append p (r ∷ rs) qs = ground (arith, keep-append p rs qs)

twins-apps_direct :
    (ts : List Text)
    → twins (pin process_name ts tag_direct) ≡ resolve_by process_name ts dns_direct_tag
unfolding text_eq
twins-apps_direct [] = refl
twins-apps_direct (t ∷ ts) = refl

twins-apps_proxy :
    (ts : List Text)
    → twins (pin process_name ts tag_proxy) ≡ resolve_by process_name ts dns_remote_tag
unfolding text_eq
twins-apps_proxy [] = refl
twins-apps_proxy (t ∷ ts) = refl

twins-direct :
    (ts : List Text)
    → twins (pin domain_suffix ts tag_direct) ≡ resolve_by domain_suffix ts dns_direct_tag
unfolding text_eq
twins-direct [] = refl
twins-direct (t ∷ ts) = refl

twins-proxy :
    (ts : List Text)
    → twins (pin domain_suffix ts tag_proxy) ≡ resolve_by domain_suffix ts dns_remote_tag
unfolding text_eq
twins-proxy [] = refl
twins-proxy (t ∷ ts) = refl

twins-other :
    (b : Bool) (m : Match) (tag : Text) → by_name m ≡ false → twins (rule_if b (route m tag)) ≡ []
twins-other true m tag h = rw h
twins-other false m tag h = refl

keep-apps :
    (ts : List Text) (server : Text)
    → keep resolves_by_name (resolve_by process_name ts server) ≡ resolve_by process_name ts server
keep-apps [] server = refl
keep-apps (t ∷ ts) server = refl

keep-suffixes :
    (ts : List Text) (server : Text)
    → keep resolves_by_name (resolve_by domain_suffix ts server)
      ≡ resolve_by domain_suffix ts server
keep-suffixes [] server = refl
keep-suffixes (t ∷ ts) server = refl

keep-other :
    (b : Bool) (r : DnsRule)
    → resolves_by_name r ≡ false
    → keep resolves_by_name (dns_rule_if b r) ≡ []
keep-other true r h = rw h
keep-other false r h = refl

included :
    (ts : List Text)
    → keep resolves_by_name
          (dns_rule_if (not (is_empty ts)) (resolve (process_name ts) dns_remote_tag))
        ++ []
      ≡ twins (pin process_name ts tag_proxy)
unfolding text_eq
included [] = refl
included (t ∷ ts) = refl

none_direct : (o : Options) → text_eq o.split_mode split_include ≡ true → direct_split_apps o ≡ []
unfolding direct_split_apps
none_direct o t = rw t

-- The two rules on process names are the twin of the one of the route.
apps :
    (o : Options)
    → keep resolves_by_name (include_rule o)
        ++ resolve_by process_name (direct_split_apps o) dns_direct_tag
      ≡ twins (split_rules o)
unfolding include_rule split_rules
apps o = elim (Bool-cases (text_eq o.split_mode split_include)) [
  | inl t ↦ rw (t, none_direct o t) (included o.split_apps)
  | inr f ↦ rw f (sym (twins-apps_direct (direct_split_apps o)))
]

apps_first :
    (o : Options) (rest : List DnsRule)
    → keep resolves_by_name (include_rule o)
        ++ (resolve_by process_name (direct_split_apps o) dns_direct_tag ++ rest)
      ≡ twins (split_rules o) ++ rest
apps_first o rest =
    sym (append_assoc (keep resolves_by_name (include_rule o)) _ rest)
    ∙ ap (λ xs. xs ++ rest) (apps o)

-- The rules of the dns block on process names and on domain suffixes are, in order, those of the
-- route, each with the resolver next to the outbound of its traffic.
pub dns_rules-route_rules :
    (d : Disk) (o : Options) → keep resolves_by_name (dns_rules d o) ≡ twins (route_rules d o)
unfolding dns_rules route_rules
dns_rules-route_rules d o =
    let voice =
      twins-other (voice_direct_active o) (udp_ports (voice_port_range ∷ [])) tag_direct refl in
    let geo =
      twins-other (not (include_only o) && smart_geo_active d o)
        (rule_set (rule_set_geoip_ru ∷ rule_set_geosite_ru ∷ [])) tag_direct refl in
    let lan = twins-other (lan_bypass_active o) ip_is_private tag_direct refl in
    let ads = keep-other (ad_block_active d o) (dns_reject_rule rule_set_geosite_ads) refl in
    let smart =
      keep-other (smart_geo_active d o)
        (resolve (rule_set (rule_set_geosite_ru ∷ [])) dns_direct_tag) refl in
    simp (
      keep-append,
      twins-append,
      ads,
      smart,
      voice,
      geo,
      lan,
      keep-apps,
      keep-suffixes,
      twins-direct,
      twins-proxy,
      apps_first o,
      append-nil,
    )
