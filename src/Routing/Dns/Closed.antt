-- ===== src/Routing/Dns/Closed.antt =====
-- The rule sets that the rules of core/routing/route.go and dns.go name, next to those that
-- `RouteRuleSets` defines.
use mathlib.Core.List.{append_assoc, append-nil}
use tenebra.Prelude.{
  Bool, true, false, not, ◌&&◌, Bool-cases, List, [], ◌∷◌, ◌++◌, Text, text_eq, In, In-append_cases,
  ◌≡◌, ◌⊎◌, inl, inr, refl, arith, if-ind,
}
use tenebra.Routing.Options.{Options, split_include}
use tenebra.Routing.Presets.{is_empty, direct_split_apps, voice_direct_active, voice_port_range}
use tenebra.Routing.Files.{
  Disk, local, file_geoip_ru, file_geosite_ru, file_geosite_ads, RuleSet, route_rule_sets,
  smart_geo_active, ad_block_active, geo_rule_sets_ready, rule_set_file_present,
  rule_set_geosite_ru, rule_set_geoip_ru, rule_set_geosite_ads,
}
use tenebra.Routing.Route.{
  Match, process_name, domain_suffix, rule_set, udp_ports, ip_is_private, Rule, route, sniff,
  hijack_dns, route_rules, split_rules, pin, rule_if, include_only, lan_bypass_active, geo_rule,
  tag_direct, tag_proxy,
}
use tenebra.Routing.Dns.{
  DnsRule, reject, resolve, resolve_by, dns_rule_if, include_rule, dns_rules, dns_reject_rule,
  dns_direct_tag, dns_remote_tag,
}

-- The rule sets that a match names.
abbrev pub named : Match → List Text
named (rule_set ts) = ts
named (process_name ts) = []
named (domain_suffix ts) = []
named (udp_ports ts) = []
named ip_is_private = []

abbrev pub route_names : List Rule → List Text
route_names [] = []
route_names (sniff ∷ rs) = route_names rs
route_names (hijack_dns ∷ rs) = route_names rs
route_names (route m outbound ∷ rs) = named m ++ route_names rs

abbrev pub dns_names : List DnsRule → List Text
dns_names [] = []
dns_names (reject m ∷ rs) = named m ++ dns_names rs
dns_names (resolve m server ∷ rs) = named m ++ dns_names rs

-- A tag that a definition carries whose file is on disk.
abbrev pub IsLoadable : Disk → Options → Text → Type 0
IsLoadable d o t =
    (r : RuleSet) × In r (route_rule_sets d o) × (r.tag ≡ t) × (d.is_file r.path ≡ true)

route_names-append : (rs qs : List Rule) → route_names (rs ++ qs) ≡ route_names rs ++ route_names qs
route_names-append [] qs = refl
route_names-append (sniff ∷ rs) qs = route_names-append rs qs
route_names-append (hijack_dns ∷ rs) qs = route_names-append rs qs
route_names-append (route m outbound ∷ rs) qs = simp (route_names-append rs qs, append_assoc)

dns_names-append : (rs qs : List DnsRule) → dns_names (rs ++ qs) ≡ dns_names rs ++ dns_names qs
dns_names-append [] qs = refl
dns_names-append (reject m ∷ rs) qs = simp (dns_names-append rs qs, append_assoc)
dns_names-append (resolve m server ∷ rs) qs = simp (dns_names-append rs qs, append_assoc)

pin_apps : (ts : List Text) (tag : Text) → route_names (pin process_name ts tag) ≡ []
pin_apps [] tag = refl
pin_apps (t ∷ ts) tag = refl

pin_suffixes : (ts : List Text) (tag : Text) → route_names (pin domain_suffix ts tag) ≡ []
pin_suffixes [] tag = refl
pin_suffixes (t ∷ ts) tag = refl

other :
    (b : Bool) (m : Match) (tag : Text) → named m ≡ [] → route_names (rule_if b (route m tag)) ≡ []
other true m tag h = rw h
other false m tag h = refl

resolve_apps : (ts : List Text) (tag : Text) → dns_names (resolve_by process_name ts tag) ≡ []
resolve_apps [] tag = refl
resolve_apps (t ∷ ts) tag = refl

resolve_suffixes : (ts : List Text) (tag : Text) → dns_names (resolve_by domain_suffix ts tag) ≡ []
resolve_suffixes [] tag = refl
resolve_suffixes (t ∷ ts) tag = refl

resolve_other :
    (b : Bool) (m : Match) (tag : Text)
    → named m ≡ []
    → dns_names (dns_rule_if b (resolve m tag)) ≡ []
resolve_other true m tag h = rw h
resolve_other false m tag h = refl

in_geo :
    (b : Bool) (t : Text)
    → In t (route_names (rule_if b geo_rule))
    → (b ≡ true) × ((t ≡ rule_set_geoip_ru) ⊎ (t ≡ rule_set_geosite_ru))
in_geo true t (inl e) = (refl, inl e)
in_geo true t (inr (inl e)) = (refl, inr e)
in_geo true t (inr (inr x)) = absurd x
in_geo false t i = absurd i

in_dns :
    (b : Bool) (r : DnsRule) (t : Text)
    → In t (dns_names (dns_rule_if b r))
    → (b ≡ true) × In t (dns_names (r ∷ []))
in_dns true r t i = (refl, i)
in_dns false r t i = absurd i

module _ (d : Disk) (o : Options) where
  geo_files :
      smart_geo_active d o ≡ true
      → IsLoadable d o rule_set_geoip_ru × IsLoadable d o rule_set_geosite_ru
  unfolding smart_geo_active geo_rule_sets_ready rule_set_file_present route_rule_sets
  geo_files h = rw h (
    (local d o rule_set_geoip_ru file_geoip_ru, inl refl, refl, ground arith),
    (local d o rule_set_geosite_ru file_geosite_ru, inr (inl refl), refl, ground arith),
  )

  ads_file : ad_block_active d o ≡ true → IsLoadable d o rule_set_geosite_ads
  unfolding ad_block_active rule_set_file_present route_rule_sets
  ads_file h = elim (Bool-cases (smart_geo_active d o)) [
    | inl g ↦ (
      local d o rule_set_geosite_ads file_geosite_ads,
      rw (g, h) (inr (inr (inl refl))),
      refl,
      ground arith,
    )
    | inr f ↦
        (local d o rule_set_geosite_ads file_geosite_ads, rw (f, h) (inl refl), refl, ground arith)
  ]

  split_none : route_names (split_rules o) ≡ []
  unfolding split_rules
  split_none =
      if-ind (λ rs. route_names rs ≡ []) (text_eq o.split_mode split_include) _ _
        (λ _. pin_apps o.split_apps tag_proxy) (λ _. pin_apps (direct_split_apps o) tag_direct)

  -- Only the geo split names rule sets among the rules of the route.
  route_only :
      route_names (route_rules d o)
      ≡ route_names (rule_if (not (include_only o) && smart_geo_active d o) geo_rule)
  unfolding route_rules
  route_only =
      let voice =
        other (voice_direct_active o) (udp_ports (voice_port_range ∷ [])) tag_direct refl in
      let lan = other (lan_bypass_active o) ip_is_private tag_direct refl in
      simp (route_names-append, split_none, pin_suffixes, voice, lan, append-nil)

  dns_only :
      dns_names (dns_rules d o)
      ≡ dns_names (dns_rule_if (ad_block_active d o) (dns_reject_rule rule_set_geosite_ads))
        ++ dns_names (
            dns_rule_if
              (smart_geo_active d o)
              (resolve (rule_set (rule_set_geosite_ru ∷ [])) dns_direct_tag))
  unfolding dns_rules include_rule
  dns_only =
      let include =
        resolve_other (text_eq o.split_mode split_include && not (is_empty o.split_apps))
          (process_name o.split_apps) dns_remote_tag refl in
      simp (dns_names-append, include, resolve_apps, resolve_suffixes)

  geo_IsLoadable :
      (t : Text)
      → smart_geo_active d o ≡ true
      → (t ≡ rule_set_geoip_ru) ⊎ (t ≡ rule_set_geosite_ru)
      → IsLoadable d o t
  geo_IsLoadable t g (inl e) = rw e (geo_files g).0
  geo_IsLoadable t g (inr e) = rw e (geo_files g).1

  of_route :
      (t : Text)
      → In t (route_names (rule_if (not (include_only o) && smart_geo_active d o) geo_rule))
      → IsLoadable d o t
  of_route t i =
      let (b, e) = in_geo (not (include_only o) && smart_geo_active d o) t i in
      geo_IsLoadable t (ground arith) e

  of_dns : (t : Text) → In t (dns_names (dns_rules d o)) → IsLoadable d o t
  of_dns t i = elim (In-append_cases t _ _ (rw dns_only at i)) [
    | inl j ↦
        let (b, e) = in_dns (ad_block_active d o) (dns_reject_rule rule_set_geosite_ads) t j in
        elim e [ inl e' ↦ rw e' (ads_file b) | inr x ↦ absurd x ]
    | inr j ↦
        let (b, e) =
          in_dns (smart_geo_active d o)
            (resolve (rule_set (rule_set_geosite_ru ∷ [])) dns_direct_tag) t j in
        elim e [ inl e' ↦ geo_IsLoadable t b (inr e') | inr x ↦ absurd x ]
  ]

-- Each rule set that a rule of the route or of the dns block names is defined, and its file is on
-- disk.
pub route_rule_sets-IsLoadable :
    (d : Disk) (o : Options) (t : Text)
    → In t (route_names (route_rules d o) ++ dns_names (dns_rules d o))
    → IsLoadable d o t
route_rule_sets-IsLoadable d o t i = elim (In-append_cases t (route_names (route_rules d o)) _ i) [
  | inl j ↦ of_route d o t (rw (route_only d o) at j)
  | inr j ↦ of_dns d o t j
]
