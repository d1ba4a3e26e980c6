-- ===== src/Singbox/Nodes/Fragment.antt =====
-- `forceFragment` of core/singbox/builder.go leaves the tags alone.
use tenebra.Prelude.{
  ℕ, ◌+◌, true, ◌&&◌, Bool-cases, Option, none, some, List, [], ◌∷◌, ◌++◌, Text, ◌≡◌, refl, sym, ap,
  ap₂, ◌∙◌, inl, inr, arith,
}
use tenebra.Model.{Node, Tls, Transport}
use tenebra.Singbox.Validate.{
  is_empty, reality_keyless, tls_enabled, check_transport, check_credentials, plugin, validate_node,
  is_valid_node,
}
use tenebra.Singbox.Tags.{free_tag, uniq}
use tenebra.Singbox.Nodes.{
  Nodes, no_nodes, add_node, add_nodes, build_nodes, selector_tags, fragmented, force_fragment,
}
use tenebra.Singbox.Nodes.Emitted.{Emits, Drops, add_node-empty, add_node-Emits, add_node-Drops}
use tenebra.Control.Candidates.{known_protocol}

abbrev fragment_node : Node → Node
fragment_node n = record n { tls = fragmented n.tls }

keyless-fragmented : (t : Option Tls) → reality_keyless (fragmented t) ≡ reality_keyless t
unfolding reality_keyless
keyless-fragmented none = refl
keyless-fragmented (some t) = refl

enabled-fragmented : (t : Option Tls) → tls_enabled (fragmented t) ≡ tls_enabled t
enabled-fragmented none = refl
enabled-fragmented (some t) = refl

transport-fragmented :
    (n : Node) (t : Option Transport) → check_transport (fragment_node n) t ≡ check_transport n t
unfolding check_transport
transport-fragmented n none = refl
transport-fragmented n (some t) = rw (enabled-fragmented n.tls) refl

credentials-fragmented : (n : Node) → check_credentials (fragment_node n) ≡ check_credentials n
unfolding check_credentials plugin
credentials-fragmented n = refl

valid-fragmented : (n : Node) → is_valid_node (fragment_node n) ≡ is_valid_node n
unfolding is_valid_node validate_node
valid-fragmented n =
    rw (keyless-fragmented n.tls, transport-fragmented n n.transport, credentials-fragmented n) refl

-- Two walks that have given out the same tags.
record SameTags (s s' : Nodes) : Type 0 where
  seen : s.seen ≡ s'.seen
  sel : s.sel ≡ s'.sel

Emits-SameTags :
    (i : ℕ) (name : Text) (s s' t t' : Nodes)
    → SameTags s s'
    → Emits i (uniq name s.seen) s t
    → Emits i (uniq name s'.seen) s' t'
    → SameTags t t'
Emits-SameTags i name s s' t t' g e e' = record {
  seen = e.seen ∙ ap (λ m. (uniq name m).seen) g.seen ∙ sym e'.seen;
  sel =
      e.sel
      ∙ ap₂ (λ l m. l ++ (record { index = i; tag = (uniq name m).tag } ∷ [])) g.sel g.seen
      ∙ sym e'.sel;
}

Drops-SameTags :
    (name : Text) (s s' t t' : Nodes)
    → SameTags s s'
    → Drops (uniq name s.seen) s t
    → Drops (uniq name s'.seen) s' t'
    → SameTags t t'
Drops-SameTags name s s' t t' g e e' = record {
  seen = e.seen ∙ ap (λ m. free_tag (uniq name m).tag (uniq name m).seen) g.seen ∙ sym e'.seen;
  sel = e.sel ∙ g.sel ∙ sym e'.sel;
}

step-SameTags :
    (i : ℕ) (n : Node) (s s' : Nodes)
    → SameTags s s'
    → SameTags (add_node i (fragment_node n) s) (add_node i n s')
step-SameTags i n s s' g = elim (Bool-cases (is_empty n.protocol)) [
  | inl e ↦ rw (add_node-empty i (fragment_node n) s e, add_node-empty i n s' e) g
  | inr e ↦ elim (Bool-cases (is_valid_node n && known_protocol n.protocol)) [
    | inl y ↦
        let v : is_valid_node n ≡ true = ground arith in
        let k : known_protocol n.protocol ≡ true = ground arith in
        Emits-SameTags i n.name s s' _ _ g
          (add_node-Emits i (fragment_node n) s e (valid-fragmented n ∙ v) k)
          (add_node-Emits i n s' e v k)
    | inr x ↦
        Drops-SameTags n.name s s' _ _ g
          (add_node-Drops i (fragment_node n) s e
            (ap (λ b. b && known_protocol n.protocol) (valid-fragmented n) ∙ x))
          (add_node-Drops i n s' e x)
  ]
]

loop-SameTags :
    (i : ℕ) (ns : List Node) (s s' : Nodes)
    → SameTags s s'
    → SameTags (add_nodes i (force_fragment ns) s) (add_nodes i ns s')
unfolding add_nodes force_fragment
loop-SameTags i [] s s' g = g
loop-SameTags i (n ∷ ns) s s' g =
    loop-SameTags (i + 1) ns (add_node i (fragment_node n) s) (add_node i n s')
      (step-SameTags i n s s' g)

-- The tags of nodes that are all made to fragment are those of the nodes.
pub selector_tags-force_fragment :
    (ns : List Node) → selector_tags (force_fragment ns) ≡ selector_tags ns
unfolding selector_tags build_nodes
selector_tags-force_fragment ns =
    (loop-SameTags 0 ns no_nodes no_nodes (record { seen = refl; sel = refl })).sel
