-- ===== src/Control/Tags/Mirror.antt =====
-- The walk of `serverTags` of core/control/daemon.go against that of the builder.
use tenebra.Prelude.{
  ℕ, suc, ◌+◌, Bool, false, ◌&&◌, Bool-cases, some, List, [], ◌∷◌, ◌++◌, map, Text, insert,
  get_elem?, ◌≡◌, refl, sym, ap, ap₂, ◌∙◌, inl, inr, arith,
}
use tenebra.Profile.{Server, Profile}
use tenebra.Singbox.Validate.{is_empty, is_valid_node}
use tenebra.Singbox.Tags.{Named, uniq}
use tenebra.Singbox.Nodes.{
  NodeTag, Nodes, no_nodes, add_node, add_nodes, build_nodes, selector_tags,
}
use tenebra.Control.Candidates.{known_protocol}
use tenebra.Control.Tags.{
  Tagging, untagged, tag_known, tag_server, tag_servers, server_tags, put_tag, put_tags, node_tags,
}
use tenebra.Singbox.Nodes.Emitted.{Emits, Drops, add_node-empty, add_node-Emits, add_node-Drops}

-- Between two servers: the walks have seen the same tags, and the tags are those that the selected
-- nodes give.
record Agree (servers : List Server) (w : Tagging) (s : Nodes) : Type 0 where
  seen : w.seen ≡ s.seen
  tags : w.tags ≡ put_tags servers s.sel []

put_tags-snoc :
    (servers : List Server) (sel : List NodeTag) (nt : NodeTag) (tags : List (Text × Text))
    → put_tags servers (sel ++ (nt ∷ [])) tags ≡ put_tag servers nt (put_tags servers sel tags)
unfolding put_tags
put_tags-snoc servers [] nt tags = refl
put_tags-snoc servers (x ∷ sel) nt tags = put_tags-snoc servers sel nt (put_tag servers x tags)

Emits-Agree :
    (servers : List Server) (i : ℕ) (sv : Server) (w : Tagging) (s s' : Nodes) (r : Named)
    → get_elem? servers i ≡ some sv
    → Agree servers w s
    → Emits i r s s'
    → Agree servers (record { seen = r.seen; tags = insert sv.id r.tag w.tags }) s'
unfolding put_tag
Emits-Agree servers i sv w s s' r at_i g e = record {
  seen = sym e.seen;
  tags = sym (
      rw e.sel (
        put_tags-snoc servers s.sel (record { index = i; tag = r.tag }) []
        ∙ rw (at_i, put_tag) (ap (insert sv.id r.tag) (sym g.tags))));
}

Drops-Agree :
    (servers : List Server) (w : Tagging) (s s' : Nodes) (r : Named)
    → Agree servers w s
    → Drops r s s'
    → Agree servers (untagged r w) s'
Drops-Agree servers w s s' r g d = record {
  seen = sym d.seen;
  tags = g.tags ∙ ap (λ sel. put_tags servers sel []) (sym d.sel);
}

named-Agree :
    (servers : List Server) (i : ℕ) (sv : Server) (w : Tagging) (s : Nodes)
    → get_elem? servers i ≡ some sv
    → Agree servers w s
    → is_empty sv.node.protocol ≡ false
    → Agree servers (tag_known sv (uniq sv.node.name s.seen) w) (add_node i sv.node s)
unfolding tag_known
named-Agree servers i sv w s at_i g e =
    let r = uniq sv.node.name s.seen in
    elim (Bool-cases (is_valid_node sv.node)) [
      | inr f ↦ rw f (
          Drops-Agree servers w s _ r g
            (add_node-Drops i sv.node s e (ap (λ b. b && known_protocol sv.node.protocol) f)))
      | inl t ↦ elim (Bool-cases (known_protocol sv.node.protocol)) [
        | inr f ↦
            rw (t, f)
              (Drops-Agree servers w s _ r g
                (add_node-Drops i sv.node s e (ap₂ (λ (b c : Bool). b && c) t f)))
        | inl k ↦
            rw (t, k) (Emits-Agree servers i sv w s _ r at_i g (add_node-Emits i sv.node s e t k))
      ]
    ]

step-Agree :
    (servers : List Server) (i : ℕ) (sv : Server) (w : Tagging) (s : Nodes)
    → get_elem? servers i ≡ some sv
    → Agree servers w s
    → Agree servers (tag_server sv w) (add_node i sv.node s)
unfolding tag_server
step-Agree servers i sv w s at_i g = elim (Bool-cases (is_empty sv.node.protocol)) [
  | inl e ↦ rw (e, add_node-empty i sv.node s e) g
  | inr e ↦ rw (e, g.seen) (named-Agree servers i sv w s at_i g e)
]

loop-Agree :
    (servers rest : List Server) (i : ℕ) (w : Tagging) (s : Nodes)
    → ((k : ℕ) → get_elem? servers (i + k) ≡ get_elem? rest k)
    → Agree servers w s
    → Agree servers (tag_servers rest w) (add_nodes i (map (λ (sv : Server). sv.node) rest) s)
unfolding tag_servers add_nodes
loop-Agree servers [] i w s at_k g = g
loop-Agree servers (sv ∷ rest) i w s at_k g =
    loop-Agree servers rest (i + 1) (tag_server sv w) (add_node i sv.node s)
      (λ k. ap (get_elem? servers) (omega arith) ∙ at_k (suc k))
      (step-Agree servers i sv w s (ap (get_elem? servers) (omega arith) ∙ at_k 0) g)

-- For every profile, the tags that the daemon works out with its own walk are those that the
-- builder's walk, read back by `NodeTags`, gives the same servers.
pub server_tags-node_tags : (p : Profile) → server_tags p ≡ node_tags p
unfolding server_tags node_tags selector_tags build_nodes
server_tags-node_tags p =
    (loop-Agree p.servers p.servers 0 (record { seen = []; tags = [] }) no_nodes
      (λ k. ap (get_elem? p.servers) (omega arith))
      (record { seen = refl; tags = unfold put_tags in refl })).tags
