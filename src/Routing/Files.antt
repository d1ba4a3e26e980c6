-- ===== src/Routing/Files.antt =====
-- The rule sets on disk: core/routing/routing.go, with `RouteRuleSets` of route.go and
-- `adBlockActive` of dns.go. `filepath.Join` and `os.Stat` are parameters.
use tenebra.Prelude.{
  Bool, false, not, ◌&&◌, List, [], ◌∷◌, ◌++◌, Text, codes, text_eq, if◌then◌else◌,
}
use tenebra.Routing.Options.{Options, mode_smart}

-- What the code asks of the file system: joining a path, and whether a path names a file, which
-- `os.Stat` finds and which is not a directory.
pub record Disk : Type 0 where
  pub join : Text → Text → Text
  pub is_file : Text → Bool

abbrev pub rule_set_geoip_ru : Text
rule_set_geoip_ru = codes "geoip-ru"

abbrev pub rule_set_geosite_ru : Text
rule_set_geosite_ru = codes "geosite-ru"

abbrev pub rule_set_geosite_ads : Text
rule_set_geosite_ads = codes "geosite-ads"

abbrev pub file_geoip_ru : Text
file_geoip_ru = codes "geoip-ru.srs"

abbrev pub file_geosite_ru : Text
file_geosite_ru = codes "geosite-ru.srs"

abbrev pub file_geosite_ads : Text
file_geosite_ads = codes "geosite-ads.srs"

-- A rule set definition: always of the type "local" and in the format "binary".
pub record RuleSet : Type 0 where
  pub tag : Text
  pub path : Text

module _ (d : Disk) where
  unfoldable pub rule_set_file_present : Options → Text → Bool
  rule_set_file_present o name =
      if text_eq o.rule_set_dir (codes "") then false else d.is_file (d.join o.rule_set_dir name)

  unfoldable pub geo_rule_sets_ready : Options → Bool
  unfolding rule_set_file_present
  geo_rule_sets_ready o =
      rule_set_file_present o file_geoip_ru && rule_set_file_present o file_geosite_ru

  unfoldable pub smart_geo_active : Options → Bool
  unfolding geo_rule_sets_ready
  smart_geo_active o = text_eq o.mode mode_smart && geo_rule_sets_ready o

  unfoldable pub smart_geo_degraded : Options → Bool
  unfolding geo_rule_sets_ready
  smart_geo_degraded o = text_eq o.mode mode_smart && not (geo_rule_sets_ready o)

  -- The loop of `MissingRuleSets`.
  unfoldable pub missing_of : Options → List Text → List Text
  unfolding rule_set_file_present
  missing_of o [] = []
  missing_of o (f ∷ fs) =
      let rest = missing_of o fs in
      if rule_set_file_present o f
      then rest
      else if text_eq o.rule_set_dir (codes "")
      then f ∷ rest
      else d.join o.rule_set_dir f ∷ rest

  -- `MissingRuleSets`.
  unfoldable pub missing_rule_sets : Options → List Text
  unfolding missing_of
  missing_rule_sets o =
      let geo : List Text =
        (if text_eq o.mode mode_smart then file_geoip_ru ∷ file_geosite_ru ∷ [] else []) in
      let ads : List Text = (if o.ad_block then file_geosite_ads ∷ [] else []) in
      missing_of o (geo ++ ads)

  unfoldable pub ad_block_active : Options → Bool
  unfolding rule_set_file_present
  ad_block_active o = o.ad_block && rule_set_file_present o file_geosite_ads

  -- The closure `local` of `RouteRuleSets`.
  abbrev pub local : Options → Text → Text → RuleSet
  local o tag file = record { tag = tag; path = d.join o.rule_set_dir file }

  -- `RouteRuleSets`.
  unfoldable pub route_rule_sets : Options → List RuleSet
  unfolding smart_geo_active ad_block_active
  route_rule_sets o =
      let geo =
        (if smart_geo_active o
          then local o rule_set_geoip_ru file_geoip_ru
            ∷ local o rule_set_geosite_ru file_geosite_ru
            ∷ []
          else []) in
      let ads =
        (if ad_block_active o then local o rule_set_geosite_ads file_geosite_ads ∷ [] else []) in
      geo ++ ads
