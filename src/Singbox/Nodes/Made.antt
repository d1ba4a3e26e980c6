-- ===== src/Singbox/Nodes/Made.antt =====
-- Each tag that `buildNodes` of core/singbox/builder.go selects stands for the object of its node.
use tenebra.Prelude.{
  ℕ, suc, ◌+◌, Option, none, some, List, [], ◌∷◌, get_elem?, In, In-append_left, In-append_right,
  In-append_cases, if-ind, Text, text_eq, ◌≡◌, ◌⊎◌, refl, ap, ◌∙◌, inl, inr, arith,
}
use tenebra.Prelude.Json.{Object}
use tenebra.Model.{amnezia_wg, Node}
use tenebra.Singbox.Validate.{Refusal, is_empty, validate_node}
use tenebra.Singbox.Tags.{Named, uniq}
use tenebra.Singbox.Outbound.{
  Rendered, rendered, as_endpoint, empty_protocol, unsupported_protocol, outbound,
  wireguard_endpoint,
}
use tenebra.Singbox.Nodes.{
  NodeTag, Nodes, add_endpoint, add_outbound, add_validated, add_node, add_nodes, no_nodes,
  build_nodes,
}

-- The object of a node under a tag is among the outbounds, or among the endpoints.
abbrev pub IsMade : Node → Text → List Object → List Object → Type 0
IsMade n t outs endpoints =
    ((o : Object) × (outbound n t ≡ rendered o) × In o outs)
    ⊎ ((o : Object) × (wireguard_endpoint n t ≡ some o) × In o endpoints)

-- So it is with every selected tag, for the node at its index.
pub record AllMade (nodes : List Node) (s : Nodes) : Type 0 where
  pub made :
      (nt : NodeTag)
      → In nt s.sel
      → (n : Node) × (get_elem? nodes nt.index ≡ some n) × IsMade n nt.tag s.outs s.endpoints

module _ (nodes : List Node) (i : ℕ) (n : Node) (r : Named) (s : Nodes)
    (at_i : get_elem? nodes i ≡ some n) (a : AllMade nodes s) where
  endpoint-AllMade :
      (o : Option Object) → wireguard_endpoint n r.tag ≡ o → AllMade nodes (add_endpoint i r s o)
  unfolding add_endpoint
  endpoint-AllMade none e = record { made = a.made }
  endpoint-AllMade (some ep) e = record {
    made = λ nt j. elim (In-append_cases nt s.sel (record { index = i; tag = r.tag } ∷ []) j) [
      | inl k ↦
          let (m, at_m, made) = a.made nt k in
          (
            m,
            at_m,
            elim made [
              | inl x ↦ inl x
              | inr (x, y, z) ↦ inr (x, y, In-append_left x s.endpoints _ z)
            ],
          )
      | inr (inl q) ↦ rw q (n, at_i, inr (ep, e, In-append_right ep s.endpoints _ (inl refl)))
      | inr (inr z) ↦ absurd z
    ];
  }

  outbound-AllMade : (x : Rendered) → outbound n r.tag ≡ x → AllMade nodes (add_outbound i r s x)
  unfolding add_outbound
  outbound-AllMade (rendered o) e = record {
    made = λ nt j. elim (In-append_cases nt s.sel (record { index = i; tag = r.tag } ∷ []) j) [
      | inl k ↦
          let (m, at_m, made) = a.made nt k in
          (
            m,
            at_m,
            elim made [ inl (x, y, z) ↦ inl (x, y, In-append_left x s.outs _ z) | inr x ↦ inr x ],
          )
      | inr (inl q) ↦ rw q (n, at_i, inl (o, e, In-append_right o s.outs _ (inl refl)))
      | inr (inr z) ↦ absurd z
    ];
  }
  outbound-AllMade as_endpoint e = record { made = a.made }
  outbound-AllMade empty_protocol e = record { made = a.made }
  outbound-AllMade unsupported_protocol e = record { made = a.made }

  validated-AllMade : (e : Option Refusal) → AllMade nodes (add_validated i n r s e)
  unfolding add_validated
  validated-AllMade (some e) = record { made = a.made }
  validated-AllMade none =
      if-ind (λ (t : Nodes). AllMade nodes t) (text_eq n.protocol amnezia_wg)
        (add_endpoint i r s (wireguard_endpoint n r.tag)) (add_outbound i r s (outbound n r.tag))
        (λ y. endpoint-AllMade _ refl) (λ y. outbound-AllMade _ refl)

node-AllMade :
    (nodes : List Node) (i : ℕ) (n : Node) (s : Nodes)
    → get_elem? nodes i ≡ some n
    → AllMade nodes s
    → AllMade nodes (add_node i n s)
unfolding add_node
node-AllMade nodes i n s at_i a =
    if-ind (λ (t : Nodes). AllMade nodes t) (is_empty n.protocol) s
      (add_validated i n (uniq n.name s.seen) s (validate_node n)) (λ e. a)
      (λ e. validated-AllMade nodes i n (uniq n.name s.seen) s at_i a (validate_node n))

loop-AllMade :
    (nodes rest : List Node) (i : ℕ) (s : Nodes)
    → ((k : ℕ) → get_elem? nodes (i + k) ≡ get_elem? rest k)
    → AllMade nodes s
    → AllMade nodes (add_nodes i rest s)
unfolding add_nodes
loop-AllMade nodes [] i s at_k a = a
loop-AllMade nodes (n ∷ rest) i s at_k a =
    loop-AllMade nodes rest (i + 1) (add_node i n s)
      (λ k. ap (get_elem? nodes) (omega arith) ∙ at_k (suc k))
      (node-AllMade nodes i n s (ap (get_elem? nodes) (omega arith) ∙ at_k 0) a)

pub build_nodes-AllMade : (nodes : List Node) → AllMade nodes (build_nodes nodes)
unfolding build_nodes
build_nodes-AllMade nodes =
    loop-AllMade nodes nodes 0 no_nodes (λ k. ap (get_elem? nodes) (omega arith))
      (record { made = λ nt i. absurd i })
