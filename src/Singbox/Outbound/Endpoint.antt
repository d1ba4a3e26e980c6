-- ===== src/Singbox/Outbound/Endpoint.antt =====
-- A node with both its keys has an endpoint: core/singbox/wireguard.go.
use tenebra.Prelude.{false, Bool-cases, some, Text, codes, text_eq_iff, ◌≡◌, ◌≢◌, inl, inr}
use tenebra.Prelude.Json.{Object}
use tenebra.Model.{Node, WireGuard}
use tenebra.Singbox.Validate.{is_empty}
use tenebra.Singbox.Outbound.{wireguard_endpoint, endpoint_of, keyed_endpoint}

pub is_empty-filled : (t : Text) → t ≢ codes "" → is_empty t ≡ false
is_empty-filled t h = elim (Bool-cases (is_empty t)) [
  | inl e ↦ absurd (h ((text_eq_iff t (codes "")).0 e))
  | inr f ↦ f
]

pub wireguard_endpoint-some :
    (n : Node) (t : Text) (w : WireGuard)
    → n.wire_guard ≡ some w
    → w.private_key ≢ codes ""
    → w.peer_public_key ≢ codes ""
    → (o : Object) × (wireguard_endpoint n t ≡ some o)
unfolding wireguard_endpoint endpoint_of
wireguard_endpoint-some n t w e p q = (
  keyed_endpoint n t w,
  rw e (rw (is_empty-filled w.private_key p, is_empty-filled w.peer_public_key q)),
)
