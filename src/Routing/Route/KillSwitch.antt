-- ===== src/Routing/Route/KillSwitch.antt =====
-- The kill switch and the rules of core/routing/route.go that send traffic direct.
use mathlib.Core.List.{append-nil}
use tenebra.Prelude.{
  Bool, true, false, not, ◌&&◌, Bool-cases, List, [], ◌∷◌, ◌++◌, Text, text_eq, text_eq_iff, In,
  In-append_cases, ◌≡◌, ◌⊎◌, inl, inr, arith, if◌then◌else◌,
}
use tenebra.Routing.Options.{
  Options, split_exclude, split_include, direct_pin_allowed, direct_rule_suffixes,
}
use tenebra.Routing.Files.{Disk, smart_geo_active}
use tenebra.Routing.Presets.{
  direct_split_apps, split_apps_with_presets, games_direct_active, voice_direct_active,
  zapret_direct_suffixes, proxy_suffixes_with_presets,
}
use tenebra.Routing.Route.{
  Match, process_name, domain_suffix, route, tag_direct, tag_proxy, split_rules, lan_bypass_active,
  route_rules, geo_rule, pin, rule_if, sniff, hijack_dns, include_only,
}

only_proxy :
    (m : Match) (ts : List Text) → ¬ In (route m tag_direct) (pin domain_suffix ts tag_proxy)
only_proxy m [] i = absurd i
only_proxy m (t ∷ ts) i = ground arith

module _ (o : Options) (armed : o.kill_switch ≡ true) where
  no_pins : direct_pin_allowed o ≡ false
  unfolding direct_pin_allowed
  no_pins = ground arith

  no_voice : voice_direct_active o ≡ false
  unfolding voice_direct_active
  no_voice = ground (arith, no_pins)

  no_games : games_direct_active o ≡ false
  unfolding games_direct_active
  no_games = ground (arith, no_pins)

  no_lan : lan_bypass_active o ≡ false
  unfolding lan_bypass_active
  no_lan = ground (arith, no_pins)

  no_direct_rules : direct_rule_suffixes o ≡ []
  unfolding direct_rule_suffixes
  no_direct_rules = rw no_pins

  no_bypass : zapret_direct_suffixes o ≡ []
  unfolding zapret_direct_suffixes
  no_bypass = ground (arith, no_pins)

  direct_apps :
      text_eq o.split_mode split_include ≡ false
      → direct_split_apps o ≡ (if text_eq o.split_mode split_exclude then o.split_apps else [])
  unfolding direct_split_apps split_apps_with_presets
  direct_apps f = rw (no_games, f)

  split_direct :
      (m : Match)
      → In (route m tag_direct) (split_rules o)
      → (m ≡ process_name o.split_apps) × (text_eq o.split_mode split_exclude ≡ true)
  unfolding split_rules
  split_direct m i = elim (Bool-cases (text_eq o.split_mode split_include)) [
    | inl t ↦ ground (arith)
    | inr f ↦ elim (Bool-cases (text_eq o.split_mode split_exclude)) [
      | inl e ↦ ground (arith, direct_apps f)
      | inr n ↦ ground (arith, direct_apps f)
    ]
  ]

  -- What is left of the route's rules.
  remaining :
      (d : Disk)
      → route_rules d o
        ≡ (sniff ∷ hijack_dns ∷ [])
          ++ (split_rules o
              ++ (pin domain_suffix (proxy_suffixes_with_presets o) tag_proxy
                  ++ rule_if (not (include_only o) && smart_geo_active d o) geo_rule))
  unfolding route_rules
  remaining d = simp (no_voice, no_direct_rules, no_bypass, no_lan, append-nil)

  geo_only :
      (d : Disk) (m : Match) (b : Bool)
      → In (route m tag_direct) (rule_if (b && smart_geo_active d o) geo_rule)
      → (route m tag_direct ≡ geo_rule) × (smart_geo_active d o ≡ true)
  geo_only d m b i = ground arith

-- Under the kill switch a rule of the route sends traffic direct only if it is the rule for the
-- apps of the user's own list in exclude mode, with no preset among them, or the geo split of
-- smart mode with its rule sets on disk.
pub route_rules-KillSwitch :
    (d : Disk) (o : Options) (m : Match)
    → o.kill_switch ≡ true
    → In (route m tag_direct) (route_rules d o)
    → ((m ≡ process_name o.split_apps) × (o.split_mode ≡ split_exclude))
      ⊎ ((route m tag_direct ≡ geo_rule) × (smart_geo_active d o ≡ true))
route_rules-KillSwitch d o m armed i = elim (rw (remaining o armed d) at i) [
  | inl e ↦ cc
  | inr (inl e) ↦ cc
  | inr (inr k) ↦ elim (In-append_cases (route m tag_direct) (split_rules o) _ k) [
    | inl s ↦
        let (e, t) = split_direct o armed m s in
        inl (e, (text_eq_iff o.split_mode split_exclude).0 t)
    | inr r ↦
        elim (In-append_cases (route m tag_direct)
          (pin domain_suffix (proxy_suffixes_with_presets o) tag_proxy) _ r) [
            | inl p ↦ absurd (only_proxy m (proxy_suffixes_with_presets o) p)
            | inr g ↦ inr (geo_only o armed d m (not (include_only o)) g)
          ]
  ]
]
