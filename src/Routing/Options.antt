-- ===== src/Routing/Options.antt =====
-- `Options` of core/routing/routing.go with `Normalize` and `Validate`, and the suffixes that its
-- rules pin (rules.go).
pub mod Valid
use tenebra.Prelude.{
  Bool, true, false, not, ◌&&◌, ◌||◌, Option, none, some, List, [], ◌∷◌, ◌++◌, Text, codes, text_eq,
  any, if◌then◌else◌,
}
use tenebra.Routing.Suffixes.{normalize_suffixes, valid_domain_suffix}

abbrev pub mode_smart : Text
mode_smart = codes "smart"

abbrev pub mode_global : Text
mode_global = codes "global"

abbrev pub mode_direct : Text
mode_direct = codes "direct"

abbrev pub split_off : Text
split_off = codes "off"

abbrev pub split_exclude : Text
split_exclude = codes "exclude"

abbrev pub split_include : Text
split_include = codes "include"

abbrev pub default_dns_remote : Text
default_dns_remote = codes "tls://1.1.1.1"

abbrev pub default_dns_direct : Text
default_dns_direct = codes "https://77.88.8.8/dns-query"

pub record Options : Type 0 where
  pub mode : Text
  pub bypass_lan : Bool
  pub ipv4_only : Bool
  pub kill_switch : Bool
  pub tls_fragment : Bool
  pub dns_remote : Text
  pub dns_direct : Text
  pub ad_block : Bool
  pub zapret_active : Bool
  pub zapret_covered : List Text
  pub unblock_services : Bool
  pub games_direct : Bool
  pub voice_direct : Bool
  pub split_mode : Text
  pub split_apps : List Text
  pub rules_direct : List Text
  pub rules_proxy : List Text
  pub preset_ru_banking : Bool
  pub preset_ru_gov : Bool
  pub multihop : Bool
  pub multihop_entry : Text
  pub multihop_exit : Text
  pub rule_set_dir : Text

unfoldable pub is_mode : Text → Bool
is_mode m = text_eq m mode_smart || text_eq m mode_global || text_eq m mode_direct

or_default : Text → Text → Text
or_default t d = if text_eq t (codes "") then d else t

-- `Options.Normalize`.
unfoldable pub normalize : Options → Options
unfolding is_mode or_default
normalize o = record o {
  mode = if is_mode o.mode then o.mode else mode_smart;
  dns_remote = or_default o.dns_remote default_dns_remote;
  dns_direct = or_default o.dns_direct default_dns_direct;
  split_mode =
      if text_eq o.split_mode split_exclude || text_eq o.split_mode split_include
      then o.split_mode
      else split_off;
  split_apps = normalize_suffixes o.split_apps;
  rules_direct = normalize_suffixes o.rules_direct;
  rules_proxy = normalize_suffixes o.rules_proxy;
  zapret_covered = normalize_suffixes o.zapret_covered;
}

pub data Invalid : Type 0 where
  unknown_mode empty_remote_dns empty_direct_dns unknown_split_mode : Invalid
  bad_direct_rule bad_proxy_rule : Invalid

-- `Options.Validate`.
unfoldable pub validate : Options → Option Invalid
unfolding is_mode
validate o =
    if not (is_mode o.mode)
    then some unknown_mode
    else if text_eq o.dns_remote (codes "")
    then some empty_remote_dns
    else if text_eq o.dns_direct (codes "")
    then some empty_direct_dns
    else if not (
        text_eq o.split_mode (codes "")
        || text_eq o.split_mode split_off
        || text_eq o.split_mode split_exclude
        || text_eq o.split_mode split_include)
    then some unknown_split_mode
    else if any (λ s. not (valid_domain_suffix s)) o.rules_direct
    then some bad_direct_rule
    else if any (λ s. not (valid_domain_suffix s)) o.rules_proxy
    then some bad_proxy_rule
    else none

-- `directPinAllowed`.
unfoldable pub direct_pin_allowed : Options → Bool
direct_pin_allowed o = not (text_eq o.mode mode_direct) && not o.kill_switch

-- `rulesActive`.
unfoldable pub rules_active : Options → Bool
rules_active o = not (text_eq o.mode mode_direct)

abbrev pub preset_ru_banking_suffixes : List Text
preset_ru_banking_suffixes =
    codes "sberbank.ru"
    ∷ codes "sberbank.com"
    ∷ codes "vtb.ru"
    ∷ codes "tbank.ru"
    ∷ codes "tinkoff.ru"
    ∷ codes "alfabank.ru"
    ∷ codes "gazprombank.ru"
    ∷ codes "gpb.ru"
    ∷ codes "raiffeisen.ru"
    ∷ codes "psbank.ru"
    ∷ codes "sovcombank.ru"
    ∷ codes "rshb.ru"
    ∷ codes "mkb.ru"
    ∷ codes "rosbank.ru"
    ∷ codes "nspk.ru"
    ∷ codes "mironline.ru"
    ∷ codes "cbr.ru"
    ∷ []

abbrev pub preset_ru_gov_suffixes : List Text
preset_ru_gov_suffixes =
    codes "gosuslugi.ru"
    ∷ codes "gov.ru"
    ∷ codes "mos.ru"
    ∷ codes "nalog.ru"
    ∷ codes "kremlin.ru"
    ∷ codes "government.ru"
    ∷ codes "mvd.ru"
    ∷ codes "rosreestr.ru"
    ∷ codes "edu.ru"
    ∷ []

-- `directRuleSuffixes`.
unfoldable pub direct_rule_suffixes : Options → List Text
unfolding direct_pin_allowed
direct_rule_suffixes o =
    let banking = (if o.preset_ru_banking then preset_ru_banking_suffixes else []) in
    let gov = (if o.preset_ru_gov then preset_ru_gov_suffixes else []) in
    if not (direct_pin_allowed o)
    then []
    else normalize_suffixes (o.rules_direct ++ (banking ++ gov))

-- `proxyRuleSuffixes`.
unfoldable pub proxy_rule_suffixes : Options → List Text
unfolding rules_active
proxy_rule_suffixes o = if not (rules_active o) then [] else normalize_suffixes o.rules_proxy
