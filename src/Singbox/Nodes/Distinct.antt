-- ===== src/Singbox/Nodes/Distinct.antt =====
-- The tags that `buildNodes` of core/singbox/builder.go gives out.
use mathlib.Core.List.{Perm, perm_middle, perm_append_singleton, map-append, append_assoc}
use mathlib.Core.List.Perm
use tenebra.Prelude.{
  ℕ, ◌+◌, false, Bool-cases, Option, none, some, List, [], ◌∷◌, ◌++◌, map, In, In-append_cases,
  Text, text_eq, ◌≡◌, ◌≢◌, refl, ap, inl, inr, arith,
}
use tenebra.Prelude.Json.{Object, text_of}
use tenebra.Prelude.Sort.Elements.{Distinct, Distinct-snoc}
use tenebra.Model.{amnezia_wg, Node}
use tenebra.Singbox.Validate.{Refusal, is_empty, validate_node}
use tenebra.Singbox.Tags.{Named, count_of, uniq}
use tenebra.Singbox.Tags.Free.{Fresh, uniq-Fresh, uniq-filled, count_of-free_tag}
use tenebra.Singbox.Outbound.{
  tag_of, Rendered, rendered, as_endpoint, empty_protocol, unsupported_protocol, outbound,
  wireguard_endpoint,
}
use tenebra.Singbox.Outbound.Tagged.{IsTagged, outbound-IsTagged, wireguard_endpoint-IsTagged}
use tenebra.Singbox.Nodes.{
  NodeTag, tags_of, Nodes, skipped, add_endpoint, add_outbound, add_validated, add_node, add_nodes,
  no_nodes, build_nodes,
}

-- What holds of the loop between two nodes: the selected tags are distinct, `seen` has them, and
-- they are those of the objects.
pub record Inv (s : Nodes) : Type 0 where
  pub distinct : Distinct (tags_of s.sel)
  pub taken : (t : Text) → In t (tags_of s.sel) → count_of t s.seen ≢ 0
  pub filled : (t : Text) → In t (tags_of s.sel) → is_empty t ≡ false
  pub same : Perm (map tag_of s.outs ++ map tag_of s.endpoints) (tags_of s.sel)

module _ (s : Nodes) (r : Named) (f : Fresh s.seen r) (full : is_empty r.tag ≡ false)
    (v : Inv s) where
  fresh : In r.tag (tags_of s.sel) → ⊥
  fresh i = v.taken r.tag i f.free

  skipped-Inv : Inv (skipped r s)
  skipped-Inv = record {
    distinct = v.distinct;
    taken = λ t i.
        let other : (r.tag ≢ t) = λ e. fresh (rw e i) in
        rw (count_of-free_tag r.tag t r.seen other) (f.kept t (v.taken t i));
    filled = v.filled;
    same = v.same;
  }

  taken_on :
      (i : ℕ) (t : Text)
      → In t (tags_of (s.sel ++ (record { index = i; tag = r.tag } ∷ [])))
      → count_of t r.seen ≢ 0
  taken_on i t m =
      elim (In-append_cases t (tags_of s.sel) (r.tag ∷ [])
        (rw (map-append (λ (q : NodeTag). q.tag) s.sel _) at m)) [
          | inl j ↦ f.kept t (v.taken t j)
          | inr (inl e) ↦ λ z. absurd (omega (arith, f.taken, ap (λ u. count_of u r.seen) e, z))
          | inr (inr z) ↦ absurd z
        ]

  filled_on :
      (i : ℕ) (t : Text)
      → In t (tags_of (s.sel ++ (record { index = i; tag = r.tag } ∷ [])))
      → is_empty t ≡ false
  filled_on i t m =
      elim (In-append_cases t (tags_of s.sel) (r.tag ∷ [])
        (rw (map-append (λ (q : NodeTag). q.tag) s.sel _) at m)) [
          | inl j ↦ v.filled t j
          | inr (inl e) ↦ rw e full
          | inr (inr z) ↦ absurd z
        ]

  Distinct-on : (i : ℕ) → Distinct (tags_of (s.sel ++ (record { index = i; tag = r.tag } ∷ [])))
  Distinct-on i =
      rw (map-append (λ (q : NodeTag). q.tag) s.sel (record { index = i; tag = r.tag } ∷ []))
        (Distinct-snoc (tags_of s.sel) r.tag v.distinct fresh)

  same_on :
      (i : ℕ) (ts : List Text)
      → Perm ts (r.tag ∷ (map tag_of s.outs ++ map tag_of s.endpoints))
      → Perm ts (tags_of (s.sel ++ (record { index = i; tag = r.tag } ∷ [])))
  same_on i ts p =
      rw (map-append (λ (q : NodeTag). q.tag) s.sel (record { index = i; tag = r.tag } ∷ [])) (
        Perm.trans p (
          Perm.trans (Perm.cons r.tag v.same)
            (Perm.symm (perm_append_singleton r.tag (tags_of s.sel)))))

  add_endpoint-Inv :
      (i : ℕ) (o : Option Object)
      → ((ep : Object) → o ≡ some ep → tag_of ep ≡ r.tag)
      → Inv (add_endpoint i r s o)
  unfolding add_endpoint
  add_endpoint-Inv i none h = skipped-Inv
  add_endpoint-Inv i (some ep) h = record {
    distinct = Distinct-on i;
    taken = taken_on i;
    filled = filled_on i;
    same = same_on i _ (
        rw
          (
            map-append tag_of s.endpoints (ep ∷ []),
            ← append_assoc (map tag_of s.outs) (map tag_of s.endpoints) (tag_of ep ∷ []),
            h ep refl,
          )
          (perm_append_singleton r.tag (map tag_of s.outs ++ map tag_of s.endpoints)));
  }

  add_outbound-Inv :
      (i : ℕ) (o : Rendered)
      → ((obj : Object) → o ≡ rendered obj → tag_of obj ≡ r.tag)
      → Inv (add_outbound i r s o)
  unfolding add_outbound
  add_outbound-Inv i (rendered obj) h = record {
    distinct = Distinct-on i;
    taken = taken_on i;
    filled = filled_on i;
    same = same_on i _ (
        rw
          (
            map-append tag_of s.outs (obj ∷ []),
            append_assoc (map tag_of s.outs) (tag_of obj ∷ []) (map tag_of s.endpoints),
            h obj refl,
          )
          (perm_middle (map tag_of s.outs) (map tag_of s.endpoints)));
  }
  add_outbound-Inv i as_endpoint h = record {
    distinct = v.distinct;
    taken = λ t i. f.kept t (v.taken t i);
    filled = v.filled;
    same = v.same;
  }
  add_outbound-Inv i empty_protocol h = skipped-Inv
  add_outbound-Inv i unsupported_protocol h = skipped-Inv

IsTagged-tag_of : (o : Object) (t : Text) → IsTagged o t → tag_of o ≡ t
IsTagged-tag_of o t h = ap text_of h

add_validated-Inv :
    (i : ℕ) (n : Node) (s : Nodes) (r : Named) (e : Option Refusal)
    → Fresh s.seen r
    → is_empty r.tag ≡ false
    → Inv s
    → Inv (add_validated i n r s e)
unfolding add_validated
add_validated-Inv i n s r (some e) f full v = skipped-Inv s r f full v
add_validated-Inv i n s r none f full v = elim (Bool-cases (text_eq n.protocol amnezia_wg)) [
  | inl a ↦ rw a (
      add_endpoint-Inv s r f full v i (wireguard_endpoint n r.tag)
        (λ o e. IsTagged-tag_of o r.tag (wireguard_endpoint-IsTagged n r.tag o e)))
  | inr a ↦ rw a (
      add_outbound-Inv s r f full v i (outbound n r.tag)
        (λ o e. IsTagged-tag_of o r.tag (outbound-IsTagged n r.tag o e)))
]

add_node-Inv : (i : ℕ) (n : Node) (s : Nodes) → Inv s → Inv (add_node i n s)
unfolding add_node
add_node-Inv i n s v = elim (Bool-cases (is_empty n.protocol)) [
  | inl e ↦ rw e v
  | inr e ↦ rw e (
      add_validated-Inv i n s (uniq n.name s.seen) (validate_node n) (uniq-Fresh n.name s.seen)
        (uniq-filled n.name s.seen) v)
]

add_nodes-Inv : (i : ℕ) (ns : List Node) (s : Nodes) → Inv s → Inv (add_nodes i ns s)
unfolding add_nodes
add_nodes-Inv i [] s v = v
add_nodes-Inv i (n ∷ ns) s v = add_nodes-Inv (i + 1) ns (add_node i n s) (add_node-Inv i n s v)

no_nodes-Inv : Inv no_nodes
no_nodes-Inv = record {
  distinct = tt;
  taken = λ t i. absurd i;
  filled = λ t i. absurd i;
  same = Perm.nil;
}

pub build_nodes-Inv : (nodes : List Node) → Inv (build_nodes nodes)
unfolding build_nodes
build_nodes-Inv nodes = add_nodes-Inv 0 nodes no_nodes no_nodes-Inv
