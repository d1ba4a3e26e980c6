-- ===== src/Singbox/Nodes/Emitted.antt =====
-- What the loop of `buildNodes` of core/singbox/builder.go does with one node, in the words of
-- core/control/daemon.go.
use tenebra.Prelude.{
  ℕ, Bool, true, false, not, ◌&&◌, Bool-cases, none, some, Option-cases, [], ◌∷◌, ◌++◌, Text,
  text_eq, text_eq_iff, ◌≡◌, ◌⊎◌, refl, ap, ◌∙◌, inl, inr, arith,
}
use tenebra.Model.{amnezia_wg, Node}
use tenebra.Singbox.Validate.{Refusal, is_empty, is_valid_node, validate_node, accepted}
use tenebra.Singbox.Validate.Complete.{is_valid_node-Complete}
use tenebra.Singbox.Tags.{Named, free_tag, uniq}
use tenebra.Singbox.Outbound.{
  Rendered, rendered, as_endpoint, empty_protocol, unsupported_protocol, outbound,
  wireguard_endpoint,
}
use tenebra.Singbox.Outbound.Endpoint.{wireguard_endpoint-some}
use tenebra.Singbox.Nodes.{Nodes, add_node, add_validated, add_endpoint, add_outbound}
use tenebra.Control.Candidates.{known_protocol}

abbrev is_rendered : Rendered → Bool
is_rendered (rendered o) = true
is_rendered _ = false

abbrev is_skipped : Rendered → Bool
is_skipped (rendered o) = false
is_skipped as_endpoint = false
is_skipped _ = true

outbound-known :
    (n : Node) (t : Text)
    → text_eq n.protocol amnezia_wg ≡ false
    → (is_rendered (outbound n t) ≡ known_protocol n.protocol)
      × (is_skipped (outbound n t) ≡ not (known_protocol n.protocol))
unfolding outbound known_protocol
outbound-known n t h = (ground arith, ground arith)

-- What a node that is emitted, or dropped, leaves of the tags.
pub record Emits (i : ℕ) (r : Named) (s s' : Nodes) : Type 0 where
  pub sel : s'.sel ≡ s.sel ++ (record { index = i; tag = r.tag } ∷ [])
  pub seen : s'.seen ≡ r.seen

pub record Drops (r : Named) (s s' : Nodes) : Type 0 where
  pub sel : s'.sel ≡ s.sel
  pub seen : s'.seen ≡ free_tag r.tag r.seen

endpoint-Emits :
    (i : ℕ) (r : Named) (s : Nodes) (n : Node)
    → text_eq n.protocol amnezia_wg ≡ true
    → is_valid_node n ≡ true
    → Emits i r s (add_endpoint i r s (wireguard_endpoint n r.tag))
unfolding add_endpoint
endpoint-Emits i r s n a v =
    let (w, e, p, q) =
      (is_valid_node-Complete n v).keys ((text_eq_iff n.protocol amnezia_wg).0 a) in
    let (o, made) = wireguard_endpoint-some n r.tag w e p q in
    rw made (record { sel = refl; seen = refl })

outbound-Emits :
    (i : ℕ) (r : Named) (s : Nodes) (x : Rendered)
    → is_rendered x ≡ true
    → Emits i r s (add_outbound i r s x)
unfolding add_outbound
outbound-Emits i r s (rendered o) h = record { sel = refl; seen = refl }
outbound-Emits i r s as_endpoint h = absurd (cc)
outbound-Emits i r s empty_protocol h = absurd (cc)
outbound-Emits i r s unsupported_protocol h = absurd (cc)

outbound-Drops :
    (i : ℕ) (r : Named) (s : Nodes) (x : Rendered)
    → is_skipped x ≡ true
    → Drops r s (add_outbound i r s x)
unfolding add_outbound
outbound-Drops i r s (rendered o) h = absurd (cc)
outbound-Drops i r s as_endpoint h = absurd (cc)
outbound-Drops i r s empty_protocol h = record { sel = refl; seen = refl }
outbound-Drops i r s unsupported_protocol h = record { sel = refl; seen = refl }

valid_cases :
    (n : Node)
    → ((validate_node n ≡ none) × (is_valid_node n ≡ true))
      ⊎ ((e : Refusal) × (validate_node n ≡ some e) × (is_valid_node n ≡ false))
unfolding is_valid_node
valid_cases n = elim (Option-cases (validate_node n)) [
  | inl e ↦ inl (e, ap accepted e)
  | inr (x, e) ↦ inr (x, e, ap accepted e)
]

-- A node without a protocol is passed over.
pub add_node-empty :
    (i : ℕ) (n : Node) (s : Nodes) → is_empty n.protocol ≡ true → add_node i n s ≡ s
unfolding add_node
add_node-empty i n s e = rw e

-- A node of a known protocol that is valid is emitted.
pub add_node-Emits :
    (i : ℕ) (n : Node) (s : Nodes)
    → is_empty n.protocol ≡ false
    → is_valid_node n ≡ true
    → known_protocol n.protocol ≡ true
    → Emits i (uniq n.name s.seen) s (add_node i n s)
unfolding add_node add_validated
add_node-Emits i n s e v k =
    let r = uniq n.name s.seen in
    elim (valid_cases n) [
      | inr (x, bad, f) ↦ absurd (cc)
      | inl (good, t) ↦ elim (Bool-cases (text_eq n.protocol amnezia_wg)) [
        | inl a ↦ rw (e, good, a) (endpoint-Emits i r s n a v)
        | inr a ↦
            let (shown, skip) = outbound-known n r.tag a in
            rw (e, good, a) (outbound-Emits i r s (outbound n r.tag) (shown ∙ k))
      ]
    ]

amnezia_wg-known : (p : Text) → text_eq p amnezia_wg ≡ true → known_protocol p ≡ true
unfolding known_protocol
amnezia_wg-known p h = ground arith

-- Any other is dropped.
pub add_node-Drops :
    (i : ℕ) (n : Node) (s : Nodes)
    → is_empty n.protocol ≡ false
    → (is_valid_node n && known_protocol n.protocol) ≡ false
    → Drops (uniq n.name s.seen) s (add_node i n s)
unfolding add_node add_validated
add_node-Drops i n s e h =
    let r = uniq n.name s.seen in
    elim (valid_cases n) [
      | inr (x, bad, f) ↦ rw (e, bad) (record { sel = refl; seen = refl })
      | inl (good, t) ↦ elim (Bool-cases (text_eq n.protocol amnezia_wg)) [
        | inl a ↦ let k = amnezia_wg-known n.protocol a in absurd (ground arith)
        | inr a ↦
            let (shown, skip) = outbound-known n r.tag a in
            let k : known_protocol n.protocol ≡ false = ground arith in
            rw (e, good, a) (outbound-Drops i r s (outbound n r.tag) (skip ∙ ap not k))
      ]
    ]
