-- ===== src/Singbox/Build/Chain.antt =====
-- A chain of two nodes in a configuration that `Build` of core/singbox/builder.go returns.
use mathlib.Core.List.{map-append}
use tenebra.Prelude.{
  true, false, Bool-cases, none, some, List, [], ◌∷◌, map, In, In-append_left, Text, codes, text_eq,
  text_eq_iff, text_eq_refl, ◌≡◌, ◌≢◌, refl, ap, ◌∙◌, inl, inr, arith,
}
use tenebra.Prelude.Json.{text, Object, get_field, put_field, get_field-put_field}
use tenebra.Model.{Node}
use tenebra.Routing.Options.{Options, normalize}
use tenebra.Singbox.Outbound.{tag_of}
use tenebra.Singbox.Nodes.{build_nodes}
use tenebra.Singbox.Tun.{TunOptions, normalize_tun}
use tenebra.Singbox.Build.{
  outbound_by_tag, is_missing, validate_multihop_outbounds, set_detour, Config, built, Host,
  config_of, direct_outbound, block_outbound, nodes_for, build, selector_default, selector_members,
}
use tenebra.Singbox.Build.Shaped.{put_detour-tag, outbound_by_tag-In, build-Layout}
use tenebra.Singbox.Build.Selector.{members_lem, default_lem}

-- The outbound under the tag of the exit dials through the entry.
abbrev Hops : List Object → Text → Text → Type 0
Hops os exit entry =
    (o : Object) × In o os × (tag_of o ≡ exit) × (get_field (codes "detour") o ≡ some (text entry))

set_detour-Hops :
    (os : List Object) (exit entry : Text)
    → is_missing (outbound_by_tag os exit) ≡ false
    → Hops (set_detour os exit entry) exit entry
unfolding set_detour outbound_by_tag is_missing
set_detour-Hops [] exit entry h = absurd (cc)
set_detour-Hops (o ∷ os) exit entry h = elim (Bool-cases (text_eq (tag_of o) exit)) [
  | inl y ↦ rw y (
    put_field (codes "detour") (text entry) o,
    inl refl,
    put_detour-tag o (text entry) ∙ (text_eq_iff (tag_of o) exit).0 y,
    rw
        (
          get_field-put_field (codes "detour") (codes "detour") (text entry) o,
          text_eq_refl (codes "detour"),
        )
        refl,
  )
  | inr n ↦ let (p, i, t, d) = set_detour-Hops os exit entry (rw n at h) in rw n (p, inr i, t, d)
]

-- What a valid check says.
pub record Checked (os : List Object) (entry exit : Text) : Type 0 where
  pub apart : entry ≢ exit
  pub has_entry : is_missing (outbound_by_tag os entry) ≡ false
  pub has_exit : is_missing (outbound_by_tag os exit) ≡ false

validate_multihop_outbounds-Checked :
    (os : List Object) (entry exit : Text)
    → validate_multihop_outbounds os entry exit ≡ none
    → Checked os entry exit
unfolding validate_multihop_outbounds
validate_multihop_outbounds-Checked os entry exit h = record {
  apart = λ e. let same = (text_eq_iff entry exit).1 e in absurd (ground arith);
  has_entry = ground arith;
  has_exit = ground arith;
}

pub record IsChain (ro : Options) (c : Config) : Type 0 where
  pub starts : selector_default c ≡ some ro.multihop_exit
  pub only : selector_members c ≡ ro.multihop_exit ∷ []
  pub apart : ro.multihop_entry ≢ ro.multihop_exit
  pub entry : In ro.multihop_entry (map tag_of c.outbounds)
  pub hop :
      (o : Object) × In o c.outbounds
      × (tag_of o ≡ ro.multihop_exit)
      × (get_field (codes "detour") o ≡ some (text ro.multihop_entry))

-- If a chain is asked for, a configuration that `Build` returns is that chain: its selector has the
-- exit as its only member and starts on it, an outbound under the tag of the exit dials through
-- the tag of the entry, which is another one and that of an outbound, too.
pub build-IsChain :
    (h : Host) (nodes : List Node) (selected : Text) (ro : Options) (tun : TunOptions) (c : Config)
    → ro.multihop ≡ true
    → build h nodes selected ro tun ≡ built c
    → IsChain ro c
unfolding normalize
build-IsChain h nodes selected ro tun c on b =
    let o = normalize ro in
    let n = build_nodes (nodes_for o nodes) in
    let l = build-Layout h nodes selected ro tun c b in
    let k = l.chain on in
    let v =
      validate_multihop_outbounds-Checked n.outs ro.multihop_entry ro.multihop_exit k.checked in
    let (p, i, t, d) = set_detour-Hops n.outs ro.multihop_exit ro.multihop_entry v.has_exit in
    rw l.laid (record {
      starts = default_lem h o (normalize_tun h.tun_name tun) n l.shape l.sound ∙ ap some k.default;
      only = members_lem h o (normalize_tun h.tun_name tun) n l.shape l.sound ∙ k.members;
      apart = v.apart;
      entry =
          unfold config_of in
          inr (
            rw
              (map-append tag_of l.shape.outs (direct_outbound ∷ block_outbound ∷ []), l.sound.tags)
              (In-append_left ro.multihop_entry (map tag_of n.outs) _
                (outbound_by_tag-In n.outs ro.multihop_entry v.has_entry)));
      hop = (p, unfold config_of in inr (In-append_left p l.shape.outs _ (rw k.outs i)), t, d);
    })
