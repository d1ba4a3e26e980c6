-- ===== src/Tunguard.antt =====
-- core/tunguard/tunguard.go: the refusal to raise a tun beside another one that can win the
-- default route. Metrics are Go ints.
pub mod Wins
pub mod Own
use tenebra.Prelude.{
  Bool, true, false, not, ◌&&◌, ◌||◌, Option, none, some, List, [], ◌∷◌, Text, codes, to_lower,
  contains, has_prefix, text_eq, any, keep, map, ℤ, pos, lt_int, le_int, length, ◌==◌,
  if◌then◌else◌,
}

pub record Iface : Type 0 where
  pub name : Text
  pub description : Text
  pub is_tunnel : Bool
  pub has_default4 : Bool
  pub has_default6 : Bool
  pub metric4 : ℤ
  pub metric6 : ℤ

-- `Iface.hasDefault`.
unfoldable pub has_default : Iface → Bool
has_default i = i.has_default4 || i.has_default6

-- `Iface.familyDefault`; the flag selects IPv6.
unfoldable pub family_default : Iface → Bool → Bool × ℤ
family_default i v6 = if v6 then (i.has_default6, i.metric6) else (i.has_default4, i.metric4)

-- `Iface.BestMetric`.
unfoldable pub best_metric : Iface → ℤ × Bool
best_metric i =
    if i.has_default4 && i.has_default6
    then (if lt_int i.metric6 i.metric4 then i.metric6 else i.metric4, true)
    else if i.has_default4
    then (i.metric4, true)
    else if i.has_default6
    then (i.metric6, true)
    else (pos 0, false)

abbrev pub tunnel_patterns : List Text
tunnel_patterns =
    codes "tun"
    ∷ codes "utun"
    ∷ codes "tap"
    ∷ codes "wg"
    ∷ codes "wintun"
    ∷ codes "vpn"
    ∷ codes "ipsec"
    ∷ codes "sing"
    ∷ codes "nekoray"
    ∷ codes "hiddify"
    ∷ codes "clash"
    ∷ codes "xray"
    ∷ codes "amnezia"
    ∷ codes "tailscale"
    ∷ codes "nordlynx"
    ∷ codes "cloudflare"
    ∷ codes "warp"
    ∷ codes "mullvad"
    ∷ codes "zerotier"
    ∷ codes "netbird"
    ∷ codes "twingate"
    ∷ codes "wireguard"
    ∷ codes "openvpn"
    ∷ []

unfoldable pub matches_tunnel_pattern : Text → Bool
unfolding to_lower contains
matches_tunnel_pattern s = let n = to_lower s in any (λ p. contains n p) tunnel_patterns

-- `IsTunnelIface`, and `isTunnel`.
unfoldable pub is_tunnel_iface : Iface → Bool
unfolding matches_tunnel_pattern
is_tunnel_iface i =
    i.is_tunnel || matches_tunnel_pattern i.name || matches_tunnel_pattern i.description

unfoldable pub lower_own : List Text → List Text
unfolding to_lower text_eq
lower_own names = map to_lower (keep (λ n. not (text_eq n (codes ""))) names)

unfoldable pub is_own : Text → List Text → Bool
unfolding to_lower has_prefix
is_own name own = let n = to_lower name in any (λ o. has_prefix n o) own

-- A default route of the family on an interface that is neither a tunnel nor ours.
unfoldable pub is_uplink : List Text → Bool → Iface → Bool
unfolding family_default is_tunnel_iface is_own
is_uplink own v6 i = not (not (family_default i v6).0 || is_tunnel_iface i || is_own i.name own)

abbrev pub better : Option ℤ → ℤ → Option ℤ
better none metric = some metric
better (some best) metric = some (if lt_int metric best then metric else best)

-- The loop of `uplinkMetric`; the pair of the best metric and `found` is an `Option`.
unfoldable pub uplink_loop : List Text → Bool → Option ℤ → List Iface → Option ℤ
uplink_loop own v6 best [] = best
uplink_loop own v6 best (i ∷ is) =
    uplink_loop own v6 (if is_uplink own v6 i then better best (family_default i v6).1 else best) is

unfoldable pub uplink_metric : List Iface → List Text → Bool → Option ℤ
unfolding uplink_loop is_uplink family_default
uplink_metric ifaces own v6 = uplink_loop own v6 none ifaces

abbrev pub at_most : Option ℤ → ℤ → Bool
at_most none metric = true
at_most (some uplink) metric = le_int metric uplink

-- `winsRoute`.
unfoldable pub wins_route : Iface → Bool → Option ℤ → Bool
unfolding family_default
wins_route i v6 uplink = (family_default i v6).0 && at_most uplink (family_default i v6).1

-- The body of the loop of `Conflicts`, on the own names as `lowerOwn` leaves them.
unfoldable pub is_conflict : List Iface → List Text → Iface → Bool
is_conflict ifaces own i =
    has_default i
    && not (is_own i.name own)
    && is_tunnel_iface i
    && (wins_route i false (uplink_metric ifaces own false)
        || wins_route i true (uplink_metric ifaces own true))

-- `Conflicts`.
unfoldable pub conflicts : List Iface → List Text → List Iface
unfolding is_conflict lower_own
conflicts ifaces own_names = keep (is_conflict ifaces (lower_own own_names)) ifaces

-- `Check`: `none` for no error, else the offenders.
unfoldable pub check : List Iface → Bool → List Text → Option (List Iface)
unfolding conflicts
check ifaces override own_names =
    if override
    then none
    else (let c = conflicts ifaces own_names in if length c == 0 then none else some c)
