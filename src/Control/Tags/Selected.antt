-- ===== src/Control/Tags/Selected.antt =====
-- The tag that core/control/daemon.go gives a server, in the configuration that
-- core/singbox/builder.go builds from the profile.
use tenebra.Prelude.{
  ℕ, zero, suc, false, Bool-cases, some, Option-cases, some_inj, List, [], ◌∷◌, map, any-In,
  get_elem?, In, In-append_left, Text, text_eq, text_eq_iff, text_eq_refl, lookup, lookup-insert,
  ◌≡◌, ◌⊎◌, refl, sym, ap, ◌∙◌, inl, inr, if◌then◌else◌,
}
use tenebra.Prelude.Json.{Object}
use tenebra.Model.{Node}
use tenebra.Profile.{Server, Profile}
use tenebra.Routing.Options.{Options, normalize}
use tenebra.Singbox.Nodes.{NodeTag, tags_of, build_nodes, selector_tags, fragmented, force_fragment}
use tenebra.Singbox.Nodes.Distinct.{build_nodes-Inv}
use tenebra.Singbox.Nodes.Made.{IsMade, build_nodes-AllMade}
use tenebra.Singbox.Tun.{TunOptions, normalize_tun}
use tenebra.Singbox.Build.{Config, Host, built, config_of, nodes_for, build, selector_default}
use tenebra.Singbox.Build.Shaped.{Layout, build-Layout}
use tenebra.Singbox.Build.Selector.{default_lem, nodes_for-tags}
use tenebra.Control.Tags.{server_tags, profile_nodes, put_tag, put_tags, node_tags}
use tenebra.Control.Tags.Mirror.{server_tags-node_tags}

-- A selected tag, and the server at its index.
abbrev Selects : List Server → List NodeTag → Text → Text → Type 0
Selects servers sel id t =
    (nt : NodeTag) × In nt sel
    × (nt.tag ≡ t)
    × ((s : Server) × (get_elem? servers nt.index ≡ some s) × (s.id ≡ id))

put_tag-find :
    (servers : List Server) (nt : NodeTag) (tags : List (Text × Text)) (id t : Text)
    → lookup id (put_tag servers nt tags) ≡ some t
    → ((nt.tag ≡ t) × ((s : Server) × (get_elem? servers nt.index ≡ some s) × (s.id ≡ id)))
      ⊎ (lookup id tags ≡ some t)
unfolding put_tag
put_tag-find servers nt tags id t h = elim (Option-cases (get_elem? servers nt.index)) [
  | inl e ↦ inr (rw (e, put_tag) at h)
  | inr (s, e) ↦
      let l = rw (e, put_tag) at h in
      elim (Bool-cases (text_eq s.id id)) [
        | inl y ↦
            inl (
              cc (rw (lookup-insert s.id id nt.tag tags, y) at l),
              (s, e, (text_eq_iff s.id id).0 y),
            )
        | inr n ↦ inr (rw (lookup-insert s.id id nt.tag tags, n) at l)
      ]
]

put_tags-find :
    (servers : List Server) (sel : List NodeTag) (tags : List (Text × Text)) (id t : Text)
    → lookup id (put_tags servers sel tags) ≡ some t
    → Selects servers sel id t ⊎ (lookup id tags ≡ some t)
unfolding put_tags
put_tags-find servers [] tags id t h = inr h
put_tags-find servers (nt ∷ sel) tags id t h =
    elim (put_tags-find servers sel (put_tag servers nt tags) id t h) [
      | inl (x, i, e, s) ↦ inl (x, inr i, e, s)
      | inr l ↦ elim (put_tag-find servers nt tags id t l) [
        | inl (e, s) ↦ inl (nt, inl refl, e, s)
        | inr k ↦ inr k
      ]
    ]

server_tags-Selects :
    (p : Profile) (id t : Text)
    → lookup id (server_tags p) ≡ some t
    → Selects p.servers (selector_tags (profile_nodes p)) id t
unfolding node_tags lookup
server_tags-Selects p id t h =
    elim (put_tags-find p.servers (selector_tags (profile_nodes p)) [] id t
      (rw (server_tags-node_tags p) at h)) [ inl s ↦ s | inr e ↦ absurd (cc) ]

-- A node as it is built: with fragmentation, where the options force it.
abbrev pub as_built : Options → Node → Node
as_built ro n = if ro.tls_fragment then record n { tls = fragmented n.tls } else n

get_elem?-map :
    {A B : Type 0} (f : A → B) (xs : List A) (i : ℕ) (x : A)
    → get_elem? xs i ≡ some x
    → get_elem? (map f xs) i ≡ some (f x)
get_elem?-map f [] i x h = absurd (cc)
get_elem?-map f (y ∷ xs) zero x h = cc
get_elem?-map f (y ∷ xs) (suc i) x h = get_elem?-map f xs i x h

node_at :
    (ro : Options) (p : Profile) (i : ℕ) (s : Server)
    → get_elem? p.servers i ≡ some s
    → get_elem? (nodes_for ro (profile_nodes p)) i ≡ some (as_built ro s.node)
unfolding force_fragment
node_at ro p i s h = elim (Bool-cases ro.tls_fragment) [
  | inl y ↦ rw y (
      get_elem?-map (λ (n : Node). record n { tls = fragmented n.tls }) (profile_nodes p) i s.node
        (get_elem?-map (λ (q : Server). q.node) p.servers i s h))
  | inr n ↦ rw n (get_elem?-map (λ (q : Server). q.node) p.servers i s h)
]

In-tags : (nt : NodeTag) (sel : List NodeTag) → In nt sel → In nt.tag (tags_of sel)
In-tags nt [] i = absurd i
In-tags nt (x ∷ sel) (inl e) = inl (ap (λ (q : NodeTag). q.tag) e)
In-tags nt (x ∷ sel) (inr i) = inr (In-tags nt sel i)

get_elem?-In : {A : Type 0} (xs : List A) (i : ℕ) (x : A) → get_elem? xs i ≡ some x → In x xs
get_elem?-In [] i x h = absurd (cc)
get_elem?-In (y ∷ xs) zero x h = inl (cc)
get_elem?-In (y ∷ xs) (suc i) x h = inr (get_elem?-In xs i x h)

IsMade-mono :
    (n : Node) (t : Text) (outs endpoints : List Object) (c : Config)
    → IsMade n t outs endpoints
    → ((o : Object) → In o outs → In o c.outbounds)
    → ((o : Object) → In o endpoints → In o c.endpoints)
    → IsMade n t c.outbounds c.endpoints
IsMade-mono n t outs endpoints c (inl (o, e, i)) f g = inl (o, e, f o i)
IsMade-mono n t outs endpoints c (inr (o, e, i)) f g = inr (o, e, g o i)

-- The selector starts on the tag, and under the tag stands the object of a server with the ID.
pub record Reaches (ro : Options) (p : Profile) (id t : Text) (c : Config) : Type 0 where
  pub starts : selector_default c ≡ some t
  pub server :
      (s : Server) × In s p.servers
      × (s.id ≡ id)
      × IsMade (as_built (normalize ro) s.node) t c.outbounds c.endpoints

module _ (h : Host) (p : Profile) (id t : Text) (ro : Options) (tun : TunOptions) (c : Config)
    (tagged : lookup id (server_tags p) ≡ some t)
    (l : Layout h t
      (normalize ro)
      (normalize_tun h.tun_name tun)
      (build_nodes (nodes_for (normalize ro) (profile_nodes p)))
      c)
    (single : (normalize ro).multihop ≡ false) where
  abbrev nodes : List Node
  nodes = nodes_for (normalize ro) (profile_nodes p)

  selects : Selects p.servers (build_nodes nodes).sel id t
  selects =
      let s = server_tags-Selects p id t tagged in
      rw (nodes_for-tags (normalize ro) (profile_nodes p)) s

  tag-In : In t (tags_of (build_nodes nodes).sel)
  tag-In = let (nt, i, e, s) = selects in rw (← e) (In-tags nt (build_nodes nodes).sel i)

  starts_lem : selector_default c ≡ some t
  starts_lem =
      let filled = (build_nodes-Inv nodes).filled t tag-In in
      let met = any-In (text_eq t) t (tags_of (build_nodes nodes).sel) tag-In (text_eq_refl t) in
      rw l.laid (
        default_lem h (normalize ro) (normalize_tun h.tun_name tun) (build_nodes nodes) l.shape
          l.sound
        ∙ ap some ((l.single single).chosen filled met))

  server_lem :
      (s : Server) × In s p.servers
      × (s.id ≡ id)
      × IsMade (as_built (normalize ro) s.node) t c.outbounds c.endpoints
  server_lem =
      let (nt, i, e, (s, at_i, same)) = selects in
      let (n, at_n, made) = (build_nodes-AllMade nodes).made nt i in
      let node : (n ≡ as_built (normalize ro) s.node) =
        some_inj (sym at_n ∙ node_at (normalize ro) p nt.index s at_i) in
      (
        s,
        get_elem?-In p.servers nt.index s at_i,
        same,
        IsMade-mono (as_built (normalize ro) s.node) t (build_nodes nodes).outs
            (build_nodes nodes).endpoints c (rw (node, e) at made)
            (λ o j.
              unfold config_of in
              rw l.laid (inr (In-append_left o l.shape.outs _ (rw (l.single single).outs j))))
            (λ o j. unfold config_of in rw l.laid j),
      )

-- Where no chain is asked for: if `serverTags` gives a server ID a tag, the configuration that is
-- built from the profile's nodes with this tag has a selector that starts on it, and holds under it
-- the object of a server of the profile with this ID, whose TLS fragments if the options force it.
pub server_tags-Reaches :
    (h : Host) (p : Profile) (id t : Text) (ro : Options) (tun : TunOptions) (c : Config)
    → lookup id (server_tags p) ≡ some t
    → ro.multihop ≡ false
    → build h (profile_nodes p) t ro tun ≡ built c
    → Reaches ro p id t c
unfolding normalize
server_tags-Reaches h p id t ro tun c tagged single b =
    let l = build-Layout h (profile_nodes p) t ro tun c b in
    record {
      starts = starts_lem h p id t ro tun c tagged l single;
      server = server_lem h p id t ro tun c tagged l single;
    }
