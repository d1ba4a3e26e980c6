-- ===== src/Tests/Routing.antt =====
-- Suffixes with white space, upper case and a repetition, and the default options.
use tenebra.Prelude.{true, false, not, none, List, [], ◌∷◌, Text, codes, any, In, ◌≡◌, ◌≢◌, ◌↔◌}
use tenebra.Prelude.Sort.{IsSorted}
use tenebra.Prelude.Sort.Elements.{Distinct}
use tenebra.Routing.Suffixes.{clean, text_lt, normalize_suffixes, valid_domain_suffix}
use tenebra.Routing.Suffixes.Normal.{normalize_suffixes_lem}
use tenebra.Routing.Options.{Options, normalize, validate}
use tenebra.Routing.Options.Valid.{validate-normalize}

abbrev typed : List Text
typed = codes " VK.com" ∷ codes "ya.ru" ∷ codes "vk.com " ∷ codes "  " ∷ []

normalize_suffixes_lem_example :
    ((t : Text)
      → In t (normalize_suffixes typed)
        ↔ ((t ≢ codes "") × ((s : Text) × In s typed × (t ≡ clean s))))
    × IsSorted text_lt (normalize_suffixes typed)
    × Distinct (normalize_suffixes typed)
normalize_suffixes_lem_example = normalize_suffixes_lem typed

abbrev options : Options
options = record {
  mode = codes "other";
  bypass_lan = true;
  ipv4_only = false;
  kill_switch = false;
  tls_fragment = false;
  dns_remote = [];
  dns_direct = [];
  ad_block = false;
  zapret_active = false;
  zapret_covered = [];
  unblock_services = false;
  games_direct = false;
  voice_direct = false;
  split_mode = [];
  split_apps = [];
  rules_direct = typed;
  rules_proxy = codes "not a domain" ∷ [];
  preset_ru_banking = false;
  preset_ru_gov = true;
  multihop = false;
  multihop_entry = [];
  multihop_exit = [];
  rule_set_dir = [];
}

options_verdict : (validate (normalize options) ≡ none) ↔ (
    (any (λ s. not (valid_domain_suffix s)) (normalize_suffixes options.rules_direct) ≡ false)
    × (any (λ s. not (valid_domain_suffix s)) (normalize_suffixes options.rules_proxy) ≡ false))
options_verdict = validate-normalize options
