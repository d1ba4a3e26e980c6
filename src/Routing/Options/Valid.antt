-- ===== src/Routing/Options/Valid.antt =====
-- `Normalize` and `Validate` of core/routing/routing.go together.
use tenebra.Prelude.{
  true, false, not, ◌||◌, none, Text, codes, text_eq, text_eq_refl, any, ◌≡◌, ◌↔◌, refl, arith,
  if◌then◌else◌,
}
use tenebra.Routing.Suffixes.{normalize_suffixes, valid_domain_suffix}
use tenebra.Routing.Options.{
  Options, is_mode, mode_smart, normalize, validate, split_off, split_exclude, split_include,
  or_default, default_dns_remote, default_dns_direct,
}

mended_mode : (m : Text) → is_mode (if is_mode m then m else mode_smart) ≡ true
unfolding is_mode
mended_mode m = ground (arith, text_eq_refl mode_smart)

mended_dns :
    (t d : Text) → text_eq d (codes "") ≡ false → text_eq (or_default t d) (codes "") ≡ false
unfolding or_default
mended_dns t d h = ground arith

mended_split :
    (m : Text)
    → (let n = (if text_eq m split_exclude || text_eq m split_include then m else split_off) in
        text_eq n (codes "")
        || text_eq n split_off
        || text_eq n split_exclude
        || text_eq n split_include)
      ≡ true
mended_split m = ground (arith, text_eq_refl split_off)

-- Normalized options are valid exactly if every direct rule and every proxy rule is, once
-- normalized, a valid domain suffix: whatever the mode, the split mode and the resolvers were.
pub validate-normalize :
    (o : Options)
    → (validate (normalize o) ≡ none) ↔ (
        (any (λ s. not (valid_domain_suffix s)) (normalize_suffixes o.rules_direct) ≡ false)
        × (any (λ s. not (valid_domain_suffix s)) (normalize_suffixes o.rules_proxy) ≡ false))
unfolding validate normalize text_eq
validate-normalize o =
    let m = mended_mode o.mode in
    let r = mended_dns o.dns_remote default_dns_remote refl in
    let d = mended_dns o.dns_direct default_dns_direct refl in
    let s = mended_split o.split_mode in ground (arith)
