-- ===== src/Singbox/Outbound/Tagged.antt =====
-- The object that core/singbox builds for a node carries the tag that it was given.
use mathlib.Core.Path.{subst}
use tenebra.Prelude.{
  false, Bool-cases, Option, none, some, Text, codes, text_eq, ◌≡◌, refl, ◌∙◌, inl, inr,
}
use tenebra.Prelude.Json.{
  Json, text, Object, get_field, put_field, put_some, get_field-put_other, get_field-put_some,
}
use tenebra.Model.{vless, hysteria2, shadowsocks, trojan, vmess, amnezia_wg, Node, WireGuard}
use tenebra.Singbox.Validate.{is_empty}
use tenebra.Singbox.Outbound.{
  Rendered, rendered, as_endpoint, empty_protocol, unsupported_protocol, outbound,
  wireguard_endpoint, vless_outbound, hysteria2_outbound, shadowsocks_outbound, trojan_outbound,
  vmess_outbound, with_tls, with_transport, endpoint_of, keyed_endpoint,
}

abbrev pub IsTagged : Object → Text → Type 0
IsTagged o t = get_field (codes "tag") o ≡ some (text t)

put_some-IsTagged :
    (k : Text) (v : Option Json) (o : Object) (t : Text)
    → text_eq k (codes "tag") ≡ false
    → IsTagged o t
    → IsTagged (put_some k v o) t
put_some-IsTagged k v o t h i = get_field-put_some k (codes "tag") v o h ∙ i

put_field-IsTagged :
    (k : Text) (v : Json) (o : Object) (t : Text)
    → text_eq k (codes "tag") ≡ false
    → IsTagged o t
    → IsTagged (put_field k v o) t
put_field-IsTagged k v o t h i = get_field-put_other k (codes "tag") v o h ∙ i

with_transport-IsTagged :
    (n : Node) (o : Object) (t : Text) → IsTagged o t → IsTagged (with_transport n o) t
unfolding text_eq
with_transport-IsTagged n o t i = put_some-IsTagged (codes "transport") _ o t refl i

with_tls-IsTagged : (n : Node) (o : Object) (t : Text) → IsTagged o t → IsTagged (with_tls n o) t
unfolding text_eq
with_tls-IsTagged n o t i = put_some-IsTagged (codes "tls") _ o t refl i

vless-IsTagged : (n : Node) (t : Text) → IsTagged (vless_outbound n t) t
unfolding vless_outbound get_field text_eq
vless-IsTagged n t =
    with_transport-IsTagged n _ t
      (with_tls-IsTagged n _ t (put_some-IsTagged (codes "flow") _ _ t refl refl))

hysteria2-IsTagged : (n : Node) (t : Text) → IsTagged (hysteria2_outbound n t) t
unfolding hysteria2_outbound get_field text_eq
hysteria2-IsTagged n t =
    put_field-IsTagged (codes "tls") _ _ t refl (put_some-IsTagged (codes "obfs") _ _ t refl refl)

shadowsocks-IsTagged : (n : Node) (t : Text) → IsTagged (shadowsocks_outbound n t) t
unfolding shadowsocks_outbound get_field text_eq
shadowsocks-IsTagged n t = refl

trojan-IsTagged : (n : Node) (t : Text) → IsTagged (trojan_outbound n t) t
unfolding trojan_outbound get_field text_eq
trojan-IsTagged n t =
    with_transport-IsTagged n _ t (put_field-IsTagged (codes "tls") _ _ t refl refl)

vmess-IsTagged : (n : Node) (t : Text) → IsTagged (vmess_outbound n t) t
unfolding vmess_outbound get_field text_eq
vmess-IsTagged n t =
    with_transport-IsTagged n _ t
      (with_tls-IsTagged n _ t (put_field-IsTagged (codes "security") _ _ t refl refl))

-- What is rendered carries the tag.
record Carries (r : Rendered) (t : Text) : Type 0 where
  carried : (o : Object) → r ≡ rendered o → IsTagged o t

rendered-Carries : (o : Object) (t : Text) → IsTagged o t → Carries (rendered o) t
rendered-Carries o t i = record { carried = λ p e. subst (λ q. IsTagged q t) (cc) i }

other-Carries : (r : Rendered) (t : Text) → ((o : Object) → r ≡ rendered o → ⊥) → Carries r t
other-Carries r t h = record { carried = λ o e. absurd (h o e) }

outbound-Carries : (n : Node) (t : Text) → Carries (outbound n t) t
unfolding outbound
outbound-Carries n t = elim (Bool-cases (text_eq n.protocol vless)) [
  | inl a ↦ rw a (rendered-Carries _ t (vless-IsTagged n t))
  | inr a ↦ elim (Bool-cases (text_eq n.protocol hysteria2)) [
    | inl b ↦ rw (a, b) (rendered-Carries _ t (hysteria2-IsTagged n t))
    | inr b ↦ elim (Bool-cases (text_eq n.protocol shadowsocks)) [
      | inl c ↦ rw (a, b, c) (rendered-Carries _ t (shadowsocks-IsTagged n t))
      | inr c ↦ elim (Bool-cases (text_eq n.protocol trojan)) [
        | inl d ↦ rw (a, b, c, d) (rendered-Carries _ t (trojan-IsTagged n t))
        | inr d ↦ elim (Bool-cases (text_eq n.protocol vmess)) [
          | inl e ↦ rw (a, b, c, d, e) (rendered-Carries _ t (vmess-IsTagged n t))
          | inr e ↦ elim (Bool-cases (text_eq n.protocol amnezia_wg)) [
            | inl f ↦ rw (a, b, c, d, e, f) (other-Carries as_endpoint t (λ o z. cc))
            | inr f ↦ elim (Bool-cases (is_empty n.protocol)) [
              | inl g ↦ rw (a, b, c, d, e, f, g) (other-Carries empty_protocol t (λ o z. cc))
              | inr g ↦ rw (a, b, c, d, e, f, g) (other-Carries unsupported_protocol t (λ o z. cc))
            ]
          ]
        ]
      ]
    ]
  ]
]

-- So does what it renders, if it does.
pub outbound-IsTagged :
    (n : Node) (t : Text) (o : Object) → outbound n t ≡ rendered o → IsTagged o t
outbound-IsTagged n t o e = (outbound-Carries n t).carried o e

abbrev Fits : Option Object → Text → Type 0
Fits none t = Unit
Fits (some o) t = IsTagged o t

endpoint_of-IsTagged :
    (n : Node) (t : Text) (w : Option WireGuard) (o : Object)
    → endpoint_of n t w ≡ some o
    → IsTagged o t
unfolding endpoint_of keyed_endpoint get_field text_eq
endpoint_of-IsTagged n t none o e = cc
endpoint_of-IsTagged n t (some w) o e = elim (Bool-cases (is_empty w.private_key)) [
  | inl a ↦ absurd (cc (rw a at e))
  | inr a ↦ elim (Bool-cases (is_empty w.peer_public_key)) [
    | inl b ↦ absurd (cc (rw (a, b) at e))
    | inr b ↦ subst (λ p. Fits p t) (rw (a, b) at e) refl
  ]
]

-- The endpoint of a node, too.
pub wireguard_endpoint-IsTagged :
    (n : Node) (t : Text) (o : Object) → wireguard_endpoint n t ≡ some o → IsTagged o t
unfolding wireguard_endpoint
wireguard_endpoint-IsTagged n t o e = endpoint_of-IsTagged n t n.wire_guard o e
