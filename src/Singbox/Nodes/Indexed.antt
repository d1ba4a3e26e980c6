-- ===== src/Singbox/Nodes/Indexed.antt =====
-- The indices that `buildNodes` of core/singbox/builder.go selects.
use mathlib.Core.List.{map-append}
use tenebra.Prelude.{
  ℕ, ◌+◌, ◌<◌, true, ◌&&◌, Bool-cases, List, [], ◌∷◌, ◌++◌, map, In, In-append_cases, ◌≡◌, refl, ap,
  ◌∙◌, inl, inr, arith,
}
use tenebra.Prelude.Sort.Elements.{Distinct, Distinct-snoc}
use tenebra.Model.{Node}
use tenebra.Singbox.Validate.{is_empty, is_valid_node}
use tenebra.Singbox.Tags.{Named, uniq}
use tenebra.Singbox.Nodes.{NodeTag, Nodes, no_nodes, add_node, add_nodes, build_nodes}
use tenebra.Singbox.Nodes.Emitted.{Emits, add_node-empty, add_node-Emits, add_node-Drops}
use tenebra.Control.Candidates.{known_protocol}

abbrev pub indices_of : List NodeTag → List ℕ
indices_of sel = map (λ (t : NodeTag). t.index) sel

-- The indices are distinct, and below that of the next node.
pub record Indexed (i : ℕ) (s : Nodes) : Type 0 where
  pub below : (j : ℕ) → In j (indices_of s.sel) → j < i
  pub distinct : Distinct (indices_of s.sel)

later-Indexed : (i : ℕ) (s s' : Nodes) → s'.sel ≡ s.sel → Indexed i s → Indexed (i + 1) s'
later-Indexed i s s' e x = record {
  below = λ j m. let b = x.below j (rw e at m) in omega arith;
  distinct = rw e x.distinct;
}

snoc-Indexed :
    (i : ℕ) (r : Named) (s s' : Nodes) → Emits i r s s' → Indexed i s → Indexed (i + 1) s'
snoc-Indexed i r s s' e x =
    let nt : NodeTag = record { index = i; tag = r.tag } in
    let app : (indices_of s'.sel ≡ indices_of s.sel ++ (i ∷ [])) =
      ap indices_of e.sel ∙ map-append (λ (t : NodeTag). t.index) s.sel (nt ∷ []) in
    record {
      below = λ j m. elim (In-append_cases j (indices_of s.sel) (i ∷ []) (rw app at m)) [
        | inl k ↦ let b = x.below j k in omega arith
        | inr (inl q) ↦ omega arith
        | inr (inr z) ↦ absurd z
      ];
      distinct = rw app (
          Distinct-snoc (indices_of s.sel) i x.distinct
            (λ m. absurd (let b = x.below i m in omega arith)));
    }

step-Indexed : (i : ℕ) (n : Node) (s : Nodes) → Indexed i s → Indexed (i + 1) (add_node i n s)
step-Indexed i n s x = elim (Bool-cases (is_empty n.protocol)) [
  | inl e ↦ later-Indexed i s _ (rw (add_node-empty i n s e) refl) x
  | inr e ↦ elim (Bool-cases (is_valid_node n && known_protocol n.protocol)) [
    | inr d ↦ later-Indexed i s _ (add_node-Drops i n s e d).sel x
    | inl y ↦
        let v : is_valid_node n ≡ true = ground arith in
        let k : known_protocol n.protocol ≡ true = ground arith in
        snoc-Indexed i (uniq n.name s.seen) s _ (add_node-Emits i n s e v k) x
  ]
]

loop-Indexed :
    (i : ℕ) (ns : List Node) (s : Nodes) → Indexed i s → (j : ℕ) × Indexed j (add_nodes i ns s)
unfolding add_nodes
loop-Indexed i [] s x = (i, x)
loop-Indexed i (n ∷ ns) s x = loop-Indexed (i + 1) ns (add_node i n s) (step-Indexed i n s x)

-- No node is selected twice.
pub build_nodes-indices : (nodes : List Node) → Distinct (indices_of (build_nodes nodes).sel)
unfolding build_nodes
build_nodes-indices nodes =
    (loop-Indexed 0 nodes no_nodes (record { below = λ j m. absurd m; distinct = tt })).1.distinct
