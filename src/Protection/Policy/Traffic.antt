-- ===== src/Protection/Policy/Traffic.antt =====
-- A packet, and what the filters of core/protection/policy.go decide on it: the first filter of its layer
-- whose conditions all hold. Whether an address is in a prefix is the operating system's test.
use tenebra.Prelude.{
  ℕ, Bool, true, false, not, ◌&&◌, ◌||◌, List, [], ◌∷◌, Text, text_eq, codes, all, leb, Option,
  none, some, ◌==◌, if◌then◌else◌,
}
use tenebra.Protection.Policy.{
  Layer, connect4, connect6, accept4, accept6, outbound, ipv6, loopback, interface, application,
  protocol, local_port, remote_port, remote_address, core, engine, dhcp, Condition, Rule,
}

pub record Packet : Type 0 where
  pub layer : Layer
  pub looped : Bool
  pub luid : ℕ
  pub program : Text
  pub proto : ℕ
  pub source : ℕ
  pub target : ℕ
  pub within : Text → Bool

unfoldable pub same_layer : Layer → Layer → Bool
same_layer connect4 connect4 = true
same_layer connect6 connect6 = true
same_layer accept4 accept4 = true
same_layer accept6 accept6 = true
same_layer _ _ = false

unfoldable pub holds : Packet → Condition → Bool
holds p c = elim c.field [
  | loopback ↦ p.looped
  | interface ↦ p.luid == c.number
  | application ↦ text_eq p.program c.text
  | protocol ↦ p.proto == c.number
  | local_port ↦ p.source == c.number
  | remote_port ↦ p.target == c.number
  | remote_address ↦ p.within c.text
]

unfoldable pub matches : Packet → Rule → Bool
unfolding holds
matches p r = same_layer r.layer p.layer && all (holds p) r.conditions

-- The decision of the first filter that matches: whether it permits.
unfoldable pub decide : Packet → List Rule → Option Bool
unfolding matches
decide p [] = none
decide p (r ∷ rs) = let rest = decide p rs in if matches p r then some r.permit else rest

-- The description of the policy: what may pass beside the tunnel.
unfoldable pub is_dns : Packet → Bool
is_dns p =
    (p.proto == 6 || p.proto == 17) && (if outbound p.layer then p.target else p.source) == 53

unfoldable pub is_trusted : Packet → Bool
is_trusted p = text_eq p.program core || text_eq p.program engine

unfoldable pub is_dhcp : Packet → Bool
is_dhcp p =
    text_eq p.program dhcp
    && p.proto == 17
    && p.source == (if ipv6 p.layer then 546 else 68)
    && p.target == (if ipv6 p.layer then 547 else 67)

unfoldable pub is_local_prefix : Packet → Bool
is_local_prefix p = p.within (codes "fe80::/10") || p.within (codes "ff02::/16")

unfoldable pub is_ndp : Packet → Bool
is_ndp p =
    ipv6 p.layer
    && p.proto == 58
    && leb 133 p.source
    && leb p.source 136
    && p.target == 0
    && is_local_prefix p

unfoldable pub allowed : ℕ → Packet → Bool
allowed luid p =
    p.looped
    || (not (luid == 0) && p.luid == luid)
    || (not (is_dns p) && (is_trusted p || is_dhcp p || is_ndp p))
