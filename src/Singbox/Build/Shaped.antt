-- ===== src/Singbox/Build/Shaped.antt =====
-- Every configuration that `Build` of core/singbox/builder.go returns is laid out over the nodes
-- that were built, with a selector that names some of them.
use mathlib.Core.List.{Perm}
use mathlib.Core.List.Perm
use tenebra.Prelude.{
  true, false, not, ◌||◌, Bool-cases, Option, none, some, List, [], ◌∷◌, ◌++◌, map, any, any-find,
  any-In, In, In-append_left, if-ind, Text, codes, text_eq, text_eq_iff, text_eq_refl, ◌≡◌, refl,
  sym, ap, inl, inr, arith, if◌then◌else◌,
}
use tenebra.Prelude.Json.{Json, text, Object, text_of, put_field, get_field-put_other}
use tenebra.Prelude.Sort.Permuted.{not-In-perm}
use tenebra.Model.{Node}
use tenebra.Routing.Options.{Options, Invalid, normalize, validate}
use tenebra.Singbox.Validate.{is_empty}
use tenebra.Singbox.Outbound.{tag_of}
use tenebra.Singbox.Nodes.{NodeTag, tags_of, Nodes, build_nodes}
use tenebra.Singbox.Nodes.Distinct.{Inv, build_nodes-Inv}
use tenebra.Singbox.Tun.{TunOptions, normalize_tun}
use tenebra.Singbox.Build.{
  ChainError, outbound_by_tag, validate_multihop_outbounds, is_missing, set_detour, Config, Built,
  built, Host, Shape, config_of, chained, unchained, over_nodes, with_first, nodes_for, validated,
  build,
}

-- The tags of the outbounds and endpoints that stand for nodes.
abbrev pub node_tags_of : Nodes → List Text
node_tags_of n = map tag_of n.outs ++ map tag_of n.endpoints

pub record IsSound (n : Nodes) (s : Shape) : Type 0 where
  pub tags : map tag_of s.outs ≡ map tag_of n.outs
  pub default : In s.default s.members
  pub filled : is_empty s.default ≡ false
  pub members : (t : Text) → In t s.members → In t (node_tags_of n)

pub put_detour-tag : (o : Object) (v : Json) → tag_of (put_field (codes "detour") v o) ≡ tag_of o
unfolding text_eq
put_detour-tag o v = ap text_of (get_field-put_other (codes "detour") (codes "tag") v o refl)

set_detour-tags :
    (os : List Object) (exit entry : Text) → map tag_of (set_detour os exit entry) ≡ map tag_of os
unfolding set_detour
set_detour-tags [] exit entry = refl
set_detour-tags (o ∷ os) exit entry = elim (Bool-cases (text_eq (tag_of o) exit)) [
  | inl t ↦ rw t (ap (λ x. x ∷ map tag_of os) (put_detour-tag o (text entry)))
  | inr f ↦ rw f (ap (◌∷◌ (tag_of o)) (set_detour-tags os exit entry))
]

-- In a permutation of a list of texts is what is in the list.
In-perm : (xs ys : List Text) (t : Text) → Perm xs ys → In t xs → In t ys
In-perm xs ys t p i = elim (Bool-cases (any (text_eq t) ys)) [
  | inl y ↦ let (u, j, e) = any-find (text_eq t) ys y in rw ((text_eq_iff t u).0 e) j
  | inr n ↦
      absurd
        (not-In-perm xs ys t p (λ j. absurd (cc (any-In (text_eq t) t ys j (text_eq_refl t)))) i)
]

pub outbound_by_tag-In :
    (os : List Object) (t : Text) → is_missing (outbound_by_tag os t) ≡ false → In t (map tag_of os)
unfolding outbound_by_tag is_missing
outbound_by_tag-In [] t h = absurd (cc)
outbound_by_tag-In (o ∷ os) t h = elim (Bool-cases (text_eq (tag_of o) t)) [
  | inl y ↦ inl (sym ((text_eq_iff (tag_of o) t).0 y))
  | inr n ↦ inr (outbound_by_tag-In os t (rw n at h))
]

-- Without a chain, the selector stands in front of the nodes as they are, and starts on the one
-- that is asked for, if it is there.
pub record IsSingle (selected : Text) (n : Nodes) (s : Shape) : Type 0 where
  pub outs : s.outs ≡ n.outs
  pub members : s.members ≡ tags_of n.sel
  pub chosen :
      is_empty selected ≡ false
      → any (text_eq selected) (tags_of n.sel) ≡ true
      → s.default ≡ selected

-- With one, its check leaves no error.
pub record IsChained (ro : Options) (n : Nodes) (s : Shape) : Type 0 where
  pub checked : validate_multihop_outbounds n.outs ro.multihop_entry ro.multihop_exit ≡ none
  pub outs : s.outs ≡ set_detour n.outs ro.multihop_exit ro.multihop_entry
  pub members : s.members ≡ ro.multihop_exit ∷ []
  pub default : s.default ≡ ro.multihop_exit

-- A configuration over the nodes `n`.
pub record Layout (h : Host) (selected : Text) (ro : Options) (tun : TunOptions) (n : Nodes)
    (c : Config) : Type 0 where
  pub shape : Shape
  pub sound : IsSound n shape
  pub laid : c ≡ config_of h ro tun n.endpoints shape
  pub single : ro.multihop ≡ false → IsSingle selected n shape
  pub chain : ro.multihop ≡ true → IsChained ro n shape

module _ (h : Host) (ro : Options) (tun : TunOptions) (n : Nodes) (v : Inv n) where
  valid_chain :
      (e : Option ChainError)
      → validate_multihop_outbounds n.outs ro.multihop_entry ro.multihop_exit ≡ e
      → e ≡ none
      → (is_empty ro.multihop_exit ≡ false)
        × (is_missing (outbound_by_tag n.outs ro.multihop_exit) ≡ false)
  unfolding validate_multihop_outbounds
  valid_chain e a b = (ground arith, ground arith)

  chained-Layout :
      (selected : Text) (e : Option ChainError) (c : Config)
      → ro.multihop ≡ true
      → validate_multihop_outbounds n.outs ro.multihop_entry ro.multihop_exit ≡ e
      → chained h ro tun n e ≡ built c
      → Layout h selected ro tun n c
  unfolding chained
  chained-Layout selected (some x) c y a b = absurd (cc)
  chained-Layout selected none c y a b =
      let (filled, found) = valid_chain none a refl in
      record {
        shape = record {
          outs = set_detour n.outs ro.multihop_exit ro.multihop_entry;
          members = ro.multihop_exit ∷ [];
          default = ro.multihop_exit;
        };
        sound = record {
          tags = set_detour-tags n.outs ro.multihop_exit ro.multihop_entry;
          default = inl refl;
          filled = filled;
          members = λ t i. elim i [
            | inl e ↦ rw e (
                In-append_left ro.multihop_exit (map tag_of n.outs) (map tag_of n.endpoints)
                  (outbound_by_tag-In n.outs ro.multihop_exit found))
            | inr z ↦ absurd z
          ];
        };
        laid = cc;
        single = λ k. absurd (cc);
        chain = λ k. record { checked = a; outs = refl; members = refl; default = refl };
      }

  unchained-Layout :
      (selected : Text) (c : Config) (default : Text)
      → ro.multihop ≡ false
      → (is_empty selected ≡ false
          → any (text_eq selected) (tags_of n.sel) ≡ true
          → default ≡ selected)
      → In default (tags_of n.sel)
      → built (
          config_of h ro tun n.endpoints
            (record { outs = n.outs; members = tags_of n.sel; default = default }))
        ≡ built c
      → Layout h selected ro tun n c
  unchained-Layout selected c default k chosen i b = record {
    shape = record { outs = n.outs; members = tags_of n.sel; default = default };
    sound = record {
      tags = refl;
      default = i;
      filled = v.filled default i;
      members = λ t j. In-perm (tags_of n.sel) (node_tags_of n) t (Perm.symm v.same) j;
    };
    laid = cc;
    single = λ z. record { outs = refl; members = refl; chosen = chosen };
    chain = λ z. absurd (cc);
  }

  default-In :
      (selected first : Text)
      → In first (tags_of n.sel)
      → In
          (if is_empty selected || not (any (text_eq selected) (tags_of n.sel))
            then first
            else selected)
          (tags_of n.sel)
  default-In selected first i =
      if-ind (λ (t : Text). In t (tags_of n.sel)) _ first selected (λ a. i)
        (λ a.
          let (u, j, e) = any-find (text_eq selected) (tags_of n.sel) (ground arith) in
          rw ((text_eq_iff selected u).0 e) j)

  over_nodes-Layout :
      (selected first : Text) (c : Config)
      → In first (tags_of n.sel)
      → over_nodes h selected ro tun n first ≡ built c
      → Layout h selected ro tun n c
  unfolding over_nodes
  over_nodes-Layout selected first c i =
      if-ind (λ (x : Built). x ≡ built c → Layout h selected ro tun n c) ro.multihop
        (chained h ro tun n (validate_multihop_outbounds n.outs ro.multihop_entry ro.multihop_exit))
        (unchained h selected ro tun n first) (λ y b. chained-Layout selected _ c y refl b)
        (λ k b.
          unfold unchained in
          unchained-Layout selected c _ k (λ f m. rw (f, m) refl) (default-In selected first i) b)

with_first-Layout :
    (h : Host) (selected : Text) (ro : Options) (tun : TunOptions) (n : Nodes) (sel : List NodeTag)
    (c : Config)
    → Inv n
    → n.sel ≡ sel
    → with_first h selected ro tun n sel ≡ built c
    → Layout h selected ro tun n c
unfolding with_first
with_first-Layout h selected ro tun n [] c v e b = absurd (cc)
with_first-Layout h selected ro tun n (t ∷ ts) c v e b =
    over_nodes-Layout h ro tun n v selected t.tag c (rw e (inl refl)) b

validated-Layout :
    (h : Host) (nodes : List Node) (selected : Text) (ro : Options) (tun : TunOptions)
    (e : Option Invalid) (c : Config)
    → validated h nodes selected ro tun e ≡ built c
    → Layout h selected ro tun (build_nodes (nodes_for ro nodes)) c
unfolding validated
validated-Layout h nodes selected ro tun (some x) c b = absurd (cc)
validated-Layout h nodes selected ro tun none c b =
    with_first-Layout h selected ro tun (build_nodes (nodes_for ro nodes)) _ c
      (build_nodes-Inv (nodes_for ro nodes)) refl b

-- What `Build` returns is laid out over the nodes that it builds.
pub build-Layout :
    (h : Host) (nodes : List Node) (selected : Text) (ro : Options) (tun : TunOptions) (c : Config)
    → build h nodes selected ro tun ≡ built c
    → Layout h selected
        (normalize ro)
        (normalize_tun h.tun_name tun)
        (build_nodes (nodes_for (normalize ro) nodes))
        c
unfolding build
build-Layout h nodes selected ro tun c b =
    validated-Layout h nodes selected (normalize ro) (normalize_tun h.tun_name tun)
      (validate (normalize ro)) c b
