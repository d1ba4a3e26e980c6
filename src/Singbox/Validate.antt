-- ===== src/Singbox/Validate.antt =====
-- `validateNode` and `ValidateNode` of core/singbox/builder.go.
pub mod Complete
use tenebra.Prelude.{
  Bool, true, false, not, ◌&&◌, ◌||◌, Option, none, some, List, [], ◌∷◌, Text, codes, text_eq, any,
  lookup, ℤ, pos, lt_int, if◌then◌else◌,
}
use tenebra.Model.{
  Protocol, vless, hysteria2, shadowsocks, trojan, vmess, amnezia_wg, Node, Tls, Reality, Transport,
  WireGuard,
}

pub data Refusal : Type 0 where
  bad_port no_public_key quic_without_tls bad_transport : Refusal
  no_method_or_password plugin_unsupported no_password no_uuid no_keys : Refusal

abbrev pub is_empty : Text → Bool
is_empty t = text_eq t (codes "")

keyless : Option Reality → Bool
keyless none = false
keyless (some r) = is_empty r.public_key

unfoldable pub reality_keyless : Option Tls → Bool
unfolding keyless
reality_keyless none = false
reality_keyless (some t) = keyless t.reality

abbrev pub tls_enabled : Option Tls → Bool
tls_enabled none = false
tls_enabled (some t) = t.enabled

abbrev pub native_transports : List Text
native_transports = codes "" ∷ codes "ws" ∷ codes "grpc" ∷ codes "http" ∷ codes "httpupgrade" ∷ []

-- The switch on the type of the transport.
unfoldable pub check_transport : Node → Option Transport → Option Refusal
check_transport n none = none
check_transport n (some t) =
    if any (text_eq t.type) native_transports
    then none
    else if text_eq t.type (codes "quic")
    then (if (text_eq n.protocol vless || text_eq n.protocol vmess) && not (tls_enabled n.tls)
        then some quic_without_tls
        else none)
    else some bad_transport

-- `n.Extra["plugin"]`; a missing key reads as the empty text.
or_empty : Option Text → Text
or_empty none = codes ""
or_empty (some v) = v

unfoldable pub plugin : Node → Text
unfolding or_empty
plugin n = or_empty (lookup (codes "plugin") n.extra)

unfoldable pub has_keys : Option WireGuard → Bool
has_keys none = false
has_keys (some w) = not (is_empty w.private_key || is_empty w.peer_public_key)

-- The switch on the protocol.
unfoldable pub check_credentials : Node → Option Refusal
check_credentials n =
    if text_eq n.protocol shadowsocks
    then (if is_empty n.method || is_empty n.password
        then some no_method_or_password
        else if not (is_empty (plugin n))
        then some plugin_unsupported
        else none)
    else if text_eq n.protocol trojan
    then (if is_empty n.password then some no_password else none)
    else if text_eq n.protocol hysteria2
    then (if is_empty n.password then some no_password else none)
    else if text_eq n.protocol vless || text_eq n.protocol vmess
    then (if is_empty n.uuid then some no_uuid else none)
    else if text_eq n.protocol amnezia_wg
    then (if has_keys n.wire_guard then none else some no_keys)
    else none

unless_refused : Option Refusal → Option Refusal → Option Refusal
unless_refused (some r) rest = some r
unless_refused none rest = rest

-- `validateNode`.
unfoldable pub validate_node : Node → Option Refusal
unfolding check_transport check_credentials unless_refused reality_keyless
validate_node n =
    if lt_int n.port (pos 1) || lt_int (pos 65535) n.port
    then some bad_port
    else if reality_keyless n.tls
    then some no_public_key
    else unless_refused (check_transport n n.transport) (check_credentials n)

abbrev pub accepted : Option Refusal → Bool
accepted none = true
accepted (some r) = false

-- `ValidateNode`.
unfoldable pub is_valid_node : Node → Bool
is_valid_node n = accepted (validate_node n)
