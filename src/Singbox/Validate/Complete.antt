-- ===== src/Singbox/Validate/Complete.antt =====
-- What `ValidateNode` of core/singbox/builder.go asks of a node, protocol by protocol.
use tenebra.Prelude.{
  ℕ, ◌≤◌, true, false, ◌||◌, Option, none, some, Text, codes, text_eq, text_eq_iff, ℤ, pos, ◌≡◌,
  ◌≢◌, ◌⊎◌, inl, inr, refl, ap, negsuc, lt_int, arith,
}
use tenebra.Model.{
  vless, hysteria2, shadowsocks, trojan, vmess, amnezia_wg, Node, Tls, Reality, WireGuard,
}
use tenebra.Singbox.Validate.{
  reality_keyless, plugin, has_keys, check_credentials, validate_node, is_valid_node,
}

-- The parameters that the node's protocol needs are there.
pub record Complete (n : Node) : Type 0 where
  pub port : (p : ℕ) × (n.port ≡ pos p) × (1 ≤ p) × (p ≤ 65535)
  pub reality :
      (t : Tls) (r : Reality) → n.tls ≡ some t → t.reality ≡ some r → r.public_key ≢ codes ""
  pub uuid : (n.protocol ≡ vless) ⊎ (n.protocol ≡ vmess) → n.uuid ≢ codes ""
  pub password :
      (n.protocol ≡ shadowsocks) ⊎ ((n.protocol ≡ trojan) ⊎ (n.protocol ≡ hysteria2))
      → n.password ≢ codes ""
  pub method : n.protocol ≡ shadowsocks → (n.method ≢ codes "") × (plugin n ≡ codes "")
  pub keys :
      n.protocol ≡ amnezia_wg
      → (w : WireGuard) × (n.wire_guard ≡ some w)
        × (w.private_key ≢ codes "")
        × (w.peer_public_key ≢ codes "")

parts :
    (n : Node)
    → is_valid_node n ≡ true
    → ((lt_int n.port (pos 1) || lt_int (pos 65535) n.port) ≡ false)
      × (reality_keyless n.tls ≡ false)
      × (check_credentials n ≡ none)
unfolding is_valid_node validate_node
parts n h = (ground arith, ground arith, ground arith)

port_range :
    (p : ℤ)
    → (lt_int p (pos 1) || lt_int (pos 65535) p) ≡ false
    → (q : ℕ) × (p ≡ pos q) × (1 ≤ q) × (q ≤ 65535)
port_range (pos q) h = (q, refl, ground arith, ground arith)
port_range (negsuc q) h = absurd (ground arith)

has_keys-keys :
    (k : Option WireGuard)
    → has_keys k ≡ true
    → (w : WireGuard) × (k ≡ some w) × (w.private_key ≢ codes "") × (w.peer_public_key ≢ codes "")
unfolding has_keys
has_keys-keys none h = cc
has_keys-keys (some w) h = (
  w,
  refl,
  ground (arith, text_eq_iff w.private_key (codes "")),
  ground (arith, text_eq_iff w.peer_public_key (codes "")),
)

shadowsocks_tests : (p : Text) → p ≡ shadowsocks → (text_eq p shadowsocks ≡ true)
unfolding text_eq
shadowsocks_tests p e = ap (λ q. text_eq q shadowsocks) e

trojan_tests : (p : Text) → p ≡ trojan → (text_eq p shadowsocks ≡ false) × (text_eq p trojan ≡ true)
unfolding text_eq
trojan_tests p e = (ap (λ q. text_eq q shadowsocks) e, ap (λ q. text_eq q trojan) e)

hysteria2_tests :
    (p : Text)
    → p ≡ hysteria2
    → (text_eq p shadowsocks ≡ false) × (text_eq p trojan ≡ false) × (text_eq p hysteria2 ≡ true)
unfolding text_eq
hysteria2_tests p e = (
  ap (λ q. text_eq q shadowsocks) e,
  ap (λ q. text_eq q trojan) e,
  ap (λ q. text_eq q hysteria2) e,
)

vless_tests :
    (p : Text)
    → p ≡ vless
    → (text_eq p shadowsocks ≡ false)
      × (text_eq p trojan ≡ false)
      × (text_eq p hysteria2 ≡ false)
      × (text_eq p vless ≡ true)
unfolding text_eq
vless_tests p e = (
  ap (λ q. text_eq q shadowsocks) e,
  ap (λ q. text_eq q trojan) e,
  ap (λ q. text_eq q hysteria2) e,
  ap (λ q. text_eq q vless) e,
)

vmess_tests :
    (p : Text)
    → p ≡ vmess
    → (text_eq p shadowsocks ≡ false)
      × (text_eq p trojan ≡ false)
      × (text_eq p hysteria2 ≡ false)
      × (text_eq p vless ≡ false)
      × (text_eq p vmess ≡ true)
unfolding text_eq
vmess_tests p e = (
  ap (λ q. text_eq q shadowsocks) e,
  ap (λ q. text_eq q trojan) e,
  ap (λ q. text_eq q hysteria2) e,
  ap (λ q. text_eq q vless) e,
  ap (λ q. text_eq q vmess) e,
)

amnezia_wg_tests :
    (p : Text)
    → p ≡ amnezia_wg
    → (text_eq p shadowsocks ≡ false)
      × (text_eq p trojan ≡ false)
      × (text_eq p hysteria2 ≡ false)
      × (text_eq p vless ≡ false)
      × (text_eq p vmess ≡ false)
      × (text_eq p amnezia_wg ≡ true)
unfolding text_eq
amnezia_wg_tests p e = (
  ap (λ q. text_eq q shadowsocks) e,
  ap (λ q. text_eq q trojan) e,
  ap (λ q. text_eq q hysteria2) e,
  ap (λ q. text_eq q vless) e,
  ap (λ q. text_eq q vmess) e,
  ap (λ q. text_eq q amnezia_wg) e,
)

module _ (n : Node) where
  needs_uuid :
      (n.protocol ≡ vless) ⊎ (n.protocol ≡ vmess) → check_credentials n ≡ none → n.uuid ≢ codes ""
  unfolding check_credentials
  needs_uuid (inl p) h =
      let t = vless_tests n.protocol p in ground (arith, text_eq_iff n.uuid (codes ""))
  needs_uuid (inr p) h =
      let t = vmess_tests n.protocol p in ground (arith, text_eq_iff n.uuid (codes ""))

  needs_password :
      (n.protocol ≡ shadowsocks) ⊎ ((n.protocol ≡ trojan) ⊎ (n.protocol ≡ hysteria2))
      → check_credentials n ≡ none
      → n.password ≢ codes ""
  unfolding check_credentials
  needs_password (inl p) h =
      let t = shadowsocks_tests n.protocol p in ground (arith, text_eq_iff n.password (codes ""))
  needs_password (inr (inl p)) h =
      let t = trojan_tests n.protocol p in ground (arith, text_eq_iff n.password (codes ""))
  needs_password (inr (inr p)) h =
      let t = hysteria2_tests n.protocol p in ground (arith, text_eq_iff n.password (codes ""))

  needs_method :
      n.protocol ≡ shadowsocks
      → check_credentials n ≡ none
      → (n.method ≢ codes "") × (plugin n ≡ codes "")
  unfolding check_credentials
  needs_method p h =
      let t = shadowsocks_tests n.protocol p in
      (
        ground (arith, text_eq_iff n.method (codes "")),
        ground (arith, text_eq_iff (plugin n) (codes "")),
      )

  needs_keys : n.protocol ≡ amnezia_wg → check_credentials n ≡ none → has_keys n.wire_guard ≡ true
  unfolding check_credentials
  needs_keys p h = let t = amnezia_wg_tests n.protocol p in ground arith

-- A node that `ValidateNode` accepts has a port between 1 and 65535, a public key if it has a
-- Reality block, and what its protocol needs: a UUID for VLESS and VMess, a password for
-- Shadowsocks, Trojan and Hysteria2, a method and no plugin for Shadowsocks, and both keys for
-- AmneziaWG.
pub is_valid_node-Complete : (n : Node) → is_valid_node n ≡ true → Complete n
unfolding reality_keyless check_credentials
is_valid_node-Complete n h =
    let (in_range, keyed, fit) = parts n h in
    record {
      port = port_range n.port in_range;
      reality = λ t r e f. ground (arith, text_eq_iff r.public_key (codes ""));
      uuid = λ p. needs_uuid n p fit;
      password = λ p. needs_password n p fit;
      method = λ p. needs_method n p fit;
      keys = λ p. has_keys-keys n.wire_guard (needs_keys n p fit);
    }
