-- ===== src/Singbox/Build/Selector.antt =====
-- The selector of a configuration that `Build` of core/singbox/builder.go returns, and the tags of
-- its outbounds and endpoints.
use mathlib.Core.List.{Perm, perm_middle, map-append, append_assoc}
use mathlib.Core.List.Perm
use tenebra.Prelude.{
  some, List, [], ◌∷◌, ◌++◌, map, drop, In, In-append_left, In-append_right, In-append_cases,
  if-ind, Text, text_eq, text_ne, ◌≡◌, ◌↔◌, refl, ap, ◌∙◌, inl, inr,
}
use tenebra.Prelude.Json.{get_field}
use tenebra.Prelude.Sort.Elements.{Distinct}
use tenebra.Prelude.Sort.Permuted.{Distinct-perm}
use tenebra.Model.{Node}
use tenebra.Routing.Options.{Options, normalize}
use tenebra.Routing.Route.{tag_proxy, tag_direct}
use tenebra.Singbox.Outbound.{tag_of}
use tenebra.Singbox.Nodes.{tags_of, Nodes, build_nodes, selector_tags, force_fragment}
use tenebra.Singbox.Nodes.Distinct.{build_nodes-Inv}
use tenebra.Singbox.Nodes.Fragment.{selector_tags-force_fragment}
use tenebra.Singbox.Tun.{TunOptions, normalize_tun}
use tenebra.Singbox.Build.{
  tag_block, Config, built, Host, Shape, selector, direct_outbound, block_outbound, config_of,
  nodes_for, build, proxy_selector, selector_default, selector_members, default_of, members_of,
  texts_of,
}
use tenebra.Singbox.Build.Shaped.{node_tags_of, IsSound, build-Layout}

-- The tags of the outbounds behind the selector, and of the endpoints.
abbrev pub dialled_tags : Config → List Text
dialled_tags c = map tag_of (drop 1 c.outbounds) ++ map tag_of c.endpoints

-- The tags of all outbounds and endpoints.
abbrev pub all_tags : Config → List Text
all_tags c = map tag_of c.outbounds ++ map tag_of c.endpoints

abbrev pub reserved : List Text
reserved = tag_proxy ∷ tag_direct ∷ tag_block ∷ []

-- The selector starts on one of its members, and each of them is there to be dialled.
pub record HasSelector (c : Config) : Type 0 where
  pub default : Text
  pub starts : selector_default c ≡ some default
  pub member : In default (selector_members c)
  pub dialled : (t : Text) → In t (selector_members c) → In t (dialled_tags c)

module _ (h : Host) (ro : Options) (tun : TunOptions) (n : Nodes) (s : Shape)
    (i : IsSound n s) where
  abbrev pub c : Config
  c = config_of h ro tun n.endpoints s

  pub members_lem : selector_members c ≡ s.members
  unfolding selector_members members_of proxy_selector config_of selector get_field text_eq texts_of
  members_lem = refl

  pub default_lem : selector_default c ≡ some s.default
  unfolding selector_default default_of proxy_selector config_of selector get_field text_eq
  default_lem = rw i.filled refl

  dialled_lem :
      dialled_tags c
      ≡ (map tag_of n.outs ++ (tag_direct ∷ tag_block ∷ [])) ++ map tag_of n.endpoints
  unfolding config_of get_field text_eq
  dialled_lem =
      ap (λ x. x ++ map tag_of n.endpoints)
        (map-append tag_of s.outs (direct_outbound ∷ block_outbound ∷ [])
          ∙ ap (λ y. y ++ (tag_direct ∷ tag_block ∷ [])) i.tags)

  all_lem : all_tags c ≡ tag_proxy ∷ dialled_tags c
  unfolding config_of selector get_field text_eq
  all_lem = refl

  config_of-HasSelector : HasSelector c
  config_of-HasSelector = record {
    default = s.default;
    starts = default_lem;
    member = rw members_lem i.default;
    dialled = λ t m.
        rw dialled_lem
          (elim (In-append_cases t (map tag_of n.outs) (map tag_of n.endpoints)
            (i.members t (rw members_lem at m))) [
              | inl j ↦ In-append_left t _ _ (In-append_left t (map tag_of n.outs) _ j)
              | inr j ↦ In-append_right t _ (map tag_of n.endpoints) j
            ]);
  }

  all-perm : Perm (tags_of n.sel) (node_tags_of n) → Perm (all_tags c) (reserved ++ tags_of n.sel)
  all-perm p =
      rw
        (
          all_lem,
          dialled_lem,
          append_assoc (map tag_of n.outs) (tag_direct ∷ tag_block ∷ []) (map tag_of n.endpoints),
        )
        (Perm.cons tag_proxy (
          Perm.trans (perm_middle (map tag_of n.outs) (tag_block ∷ map tag_of n.endpoints)) (
            Perm.cons tag_direct (
              Perm.trans (perm_middle (map tag_of n.outs) (map tag_of n.endpoints))
                (Perm.cons tag_block (Perm.symm p))))))

-- The selector of every configuration that `Build` returns starts on one of its members, and each
-- member is the tag of an outbound behind the selector or of an endpoint.
pub build-HasSelector :
    (h : Host) (nodes : List Node) (selected : Text) (ro : Options) (tun : TunOptions) (c : Config)
    → build h nodes selected ro tun ≡ built c
    → HasSelector c
build-HasSelector h nodes selected ro tun c b =
    let l = build-Layout h nodes selected ro tun c b in
    rw l.laid (
      config_of-HasSelector h (normalize ro) (normalize_tun h.tun_name tun)
        (build_nodes (nodes_for (normalize ro) nodes)) l.shape l.sound)

-- Distinct tags stay so behind the reserved ones exactly if none of them is reserved.
reserved-Distinct :
    (ts : List Text)
    → Distinct ts
    → Distinct (reserved ++ ts) ↔ ((t : Text) → In t reserved → In t ts → ⊥)
unfolding text_eq
reserved-Distinct ts d = (
  λ r t m. elim m [
    | inl e ↦ λ i. r.0 (inr (inr (rw e at i)))
    | inr (inl e) ↦ λ i. r.1.0 (inr (rw e at i))
    | inr (inr (inl e)) ↦ λ i. r.1.1.0 (rw e at i)
    | inr (inr (inr z)) ↦ absurd z
  ],
  λ h. (
    λ i. elim i [
      | inl e ↦ text_ne tag_proxy tag_direct refl e
      | inr (inl e) ↦ text_ne tag_proxy tag_block refl e
      | inr (inr j) ↦ h tag_proxy (inl refl) j
    ],
    (
      λ i. elim i [
        | inl e ↦ text_ne tag_direct tag_block refl e
        | inr j ↦ h tag_direct (inr (inl refl)) j
      ],
      (λ i. h tag_block (inr (inr (inl refl))) i, d),
    ),
  ),
)

pub nodes_for-tags :
    (ro : Options) (nodes : List Node)
    → (build_nodes (nodes_for ro nodes)).sel ≡ selector_tags nodes
unfolding selector_tags
nodes_for-tags ro nodes =
    if-ind (λ (ns : List Node). (build_nodes ns).sel ≡ (build_nodes nodes).sel) ro.tls_fragment
      (force_fragment nodes) nodes (λ t. selector_tags-force_fragment nodes) (λ f. refl)

-- The tags of all outbounds and endpoints of a configuration that `Build` returns are distinct
-- exactly if `SelectorTags` gives none of the nodes one of the three reserved tags, which are
-- "proxy", "direct" and "block".
pub build-Distinct :
    (h : Host) (nodes : List Node) (selected : Text) (ro : Options) (tun : TunOptions) (c : Config)
    → build h nodes selected ro tun ≡ built c
    → Distinct (all_tags c)
      ↔ ((t : Text) → In t reserved → In t (tags_of (selector_tags nodes)) → ⊥)
build-Distinct h nodes selected ro tun c b =
    let n = build_nodes (nodes_for (normalize ro) nodes) in
    let v = build_nodes-Inv (nodes_for (normalize ro) nodes) in
    let l = build-Layout h nodes selected ro tun c b in
    let p =
      all-perm h (normalize ro) (normalize_tun h.tun_name tun) n l.shape l.sound
        (Perm.symm v.same) in
    let iff = reserved-Distinct (tags_of n.sel) v.distinct in
    let same = nodes_for-tags (normalize ro) nodes in
    rw (l.laid, ← same)
      (λ d. iff.0 (Distinct-perm _ _ p d), λ g. Distinct-perm _ _ (Perm.symm p) (iff.1 g))
