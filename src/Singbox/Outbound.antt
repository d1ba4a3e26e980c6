-- ===== src/Singbox/Outbound.antt =====
-- core/singbox/outbound.go and wireguard.go: the object of one node. A field that the source sets
-- under a condition is a write of an `Option`.
pub mod Tagged
pub mod Endpoint
pub mod Client
use tenebra.Prelude.{
  Bool, true, false, not, ◌&&◌, ◌||◌, Option, none, some, List, [], ◌∷◌, Text, codes, text_eq,
  if◌then◌else◌,
}
use tenebra.Prelude.Json.{
  Json, text, number, flag, texts, object, objects, Object, nil, cons, fields, text_of, get_field,
  put_field, put_some,
}
use tenebra.Model.{
  vless, hysteria2, shadowsocks, trojan, vmess, amnezia_wg, Node, Tls, Reality, Transport, Obfs,
  WireGuard,
}
use tenebra.Singbox.Validate.{is_empty}

abbrev key : Text → Json → Text × Json
key k v = (k, v)

abbrev pub when : Bool → Json → Option Json
when b v = if b then some v else none

-- A text that is left out where it is empty.
abbrev pub given : Text → Option Json
given t = when (not (is_empty t)) (text t)

abbrev pub sub_object : Option Object → Option Json
sub_object none = none
sub_object (some o) = some (object o)

is_nil : List Text → Bool
is_nil [] = true
is_nil (t ∷ ts) = false

abbrev pub fragment_fallback_delay : Text
fragment_fallback_delay = codes "500ms"

unfoldable pub client_object : Reality → Object
client_object r =
    put_some (codes "short_id") (given r.short_id) (
      fields
        (key (codes "enabled") (flag true) ∷ key (codes "public_key") (text r.public_key) ∷ []))

-- The block of a node that has a public key.
unfoldable pub reality_object : Option Reality → Option Object
unfolding client_object
reality_object none = none
reality_object (some r) = if is_empty r.public_key then none else some (client_object r)

abbrev pub has_object : Option Object → Bool
has_object none = false
has_object (some o) = true

unfoldable pub fingerprint_of : Tls → Text
fingerprint_of t =
    if is_empty t.fingerprint && has_object (reality_object t.reality)
    then codes "chrome"
    else t.fingerprint

abbrev pub utls_object : Text → Json
utls_object fingerprint =
    object (
      fields
        (key (codes "enabled") (flag true) ∷ key (codes "fingerprint") (text fingerprint) ∷ []))

unfoldable pub enabled_tls : Tls → Object
unfolding fingerprint_of is_nil
enabled_tls t =
    let o0 = fields (key (codes "enabled") (flag true) ∷ []) in
    let o1 = put_some (codes "server_name") (given t.server_name) o0 in
    let o2 = put_some (codes "insecure") (when t.insecure (flag true)) o1 in
    let o3 = put_some (codes "alpn") (when (not (is_nil t.alpn)) (texts t.alpn)) o2 in
    let o4 =
      put_some (codes "utls")
        (when (not (is_empty (fingerprint_of t))) (utls_object (fingerprint_of t))) o3 in
    let o5 = put_some (codes "reality") (sub_object (reality_object t.reality)) o4 in
    let o6 = put_some (codes "fragment") (when t.fragment (flag true)) o5 in
    put_some (codes "fragment_fallback_delay") (when t.fragment (text fragment_fallback_delay)) o6

-- `tlsObject`.
unfoldable pub tls_object : Option Tls → Option Object
unfolding enabled_tls
tls_object none = none
tls_object (some t) = if not t.enabled then none else some (enabled_tls t)

host_header : Text → Option Json
host_header host =
    when (not (is_empty host)) (object (fields (key (codes "Host") (text host) ∷ [])))

typed : Text → Object
typed t = fields (key (codes "type") (text t) ∷ [])

unfoldable pub typed_transport : Transport → Object
unfolding host_header typed
typed_transport t =
    if text_eq t.type (codes "ws")
    then put_some (codes "headers") (host_header t.host)
        (put_some (codes "path") (given t.path) (typed (codes "ws")))
    else if text_eq t.type (codes "grpc")
    then put_some (codes "service_name") (given t.service_name) (typed (codes "grpc"))
    else if text_eq t.type (codes "quic")
    then typed (codes "quic")
    else if text_eq t.type (codes "http")
    then put_some (codes "host") (when (not (is_empty t.host)) (texts (t.host ∷ [])))
        (put_some (codes "path") (given t.path) (typed t.type))
    else if text_eq t.type (codes "httpupgrade")
    then put_some (codes "host") (given t.host)
        (put_some (codes "path") (given t.path) (typed t.type))
    else put_some (codes "path") (given t.path) (typed t.type)

-- `transportObject`.
unfoldable pub transport_object : Option Transport → Option Object
unfolding typed_transport
transport_object none = none
transport_object (some t) = if is_empty t.type then none else some (typed_transport t)

-- The fields that every outbound starts with.
abbrev pub dialled : Text → Text → Node → List (Text × Json) → Object
dialled type tag n more = fields (
    key (codes "type") (text type)
    ∷ key (codes "tag") (text tag)
    ∷ key (codes "server") (text n.server)
    ∷ key (codes "server_port") (number n.port)
    ∷ more)

abbrev pub with_tls : Node → Object → Object
with_tls n o = put_some (codes "tls") (sub_object (tls_object n.tls)) o

abbrev pub with_transport : Node → Object → Object
with_transport n o = put_some (codes "transport") (sub_object (transport_object n.transport)) o

-- `vlessOutbound`.
unfoldable pub vless_outbound : Node → Text → Object
vless_outbound n tag = with_transport n (
    with_tls n (
      put_some (codes "flow") (given n.flow)
        (dialled (codes "vless") tag n (key (codes "uuid") (text n.uuid) ∷ []))))

obfs_object : Option Obfs → Option Json
obfs_object none = none
obfs_object (some o) = when (not (is_empty o.type)) (
    object
      (fields (key (codes "type") (text o.type) ∷ key (codes "password") (text o.password) ∷ [])))

-- TLS for a protocol that has nothing else.
abbrev pub default_tls : Text → Object
default_tls server =
    fields (key (codes "enabled") (flag true) ∷ key (codes "server_name") (text server) ∷ [])

forced_tls : Option Object → Text → Json
forced_tls none server = object (default_tls server)
forced_tls (some t) server = object t

-- `hysteria2Outbound`.
unfoldable pub hysteria2_outbound : Node → Text → Object
unfolding obfs_object forced_tls
hysteria2_outbound n tag = put_field (codes "tls") (forced_tls (tls_object n.tls) n.server) (
    put_some (codes "obfs") (obfs_object n.obfs)
      (dialled (codes "hysteria2") tag n (key (codes "password") (text n.password) ∷ [])))

-- `shadowsocksOutbound`.
unfoldable pub shadowsocks_outbound : Node → Text → Object
shadowsocks_outbound n tag =
    dialled (codes "shadowsocks") tag n
      (key (codes "method") (text n.method) ∷ key (codes "password") (text n.password) ∷ [])

-- `trojanOutbound`.
unfoldable pub trojan_outbound : Node → Text → Object
unfolding forced_tls
trojan_outbound n tag = with_transport n (
    put_field (codes "tls") (forced_tls (tls_object n.tls) n.server)
      (dialled (codes "trojan") tag n (key (codes "password") (text n.password) ∷ [])))

-- `vmessOutbound`.
unfoldable pub vmess_outbound : Node → Text → Object
vmess_outbound n tag =
    let security = (if is_empty n.security then codes "auto" else n.security) in
    with_transport n (
      with_tls n (
        put_field (codes "security") (text security) (
          dialled (codes "vmess") tag n
            (key (codes "uuid") (text n.uuid) ∷ key (codes "alter_id") (number n.alter_id) ∷ []))))

-- `o["tag"].(string)`.
abbrev pub tag_of : Object → Text
tag_of o = text_of (get_field (codes "tag") o)

-- What `outbound` returns.
pub data Rendered : Type 0 where
  rendered : Object → Rendered
  as_endpoint empty_protocol unsupported_protocol : Rendered

-- `outbound`.
unfoldable pub outbound : Node → Text → Rendered
unfolding vless_outbound hysteria2_outbound shadowsocks_outbound trojan_outbound vmess_outbound
outbound n tag =
    if text_eq n.protocol vless
    then rendered (vless_outbound n tag)
    else if text_eq n.protocol hysteria2
    then rendered (hysteria2_outbound n tag)
    else if text_eq n.protocol shadowsocks
    then rendered (shadowsocks_outbound n tag)
    else if text_eq n.protocol trojan
    then rendered (trojan_outbound n tag)
    else if text_eq n.protocol vmess
    then rendered (vmess_outbound n tag)
    else if text_eq n.protocol amnezia_wg
    then as_endpoint
    else if is_empty n.protocol
    then empty_protocol
    else unsupported_protocol

-- `localAddresses`.
unfoldable pub local_addresses : List Text → List Text
local_addresses [] = codes "172.16.0.2/32" ∷ []
local_addresses (a ∷ as') = a ∷ as'

peer : Node → WireGuard → Object
peer n w = put_some (codes "pre_shared_key") (given w.pre_shared_key) (
    fields (
      key (codes "address") (text n.server)
      ∷ key (codes "port") (number n.port)
      ∷ key (codes "public_key") (text w.peer_public_key)
      ∷ key (codes "allowed_ips") (texts (codes "0.0.0.0/0" ∷ codes "::/0" ∷ []))
      ∷ []))

keyed_endpoint : Node → Text → WireGuard → Object
unfolding local_addresses peer
keyed_endpoint n tag w = fields (
    key (codes "type") (text (codes "wireguard"))
    ∷ key (codes "tag") (text tag)
    ∷ key (codes "address") (texts (local_addresses w.local_address))
    ∷ key (codes "private_key") (text w.private_key)
    ∷ key (codes "peers") (objects (cons (peer n w) nil))
    ∷ [])

endpoint_of : Node → Text → Option WireGuard → Option Object
unfolding keyed_endpoint
endpoint_of n tag none = none
endpoint_of n tag (some w) =
    if is_empty w.private_key
    then none
    else if is_empty w.peer_public_key
    then none
    else some (keyed_endpoint n tag w)

-- `wireguardEndpoint`, where `none` is an error.
unfoldable pub wireguard_endpoint : Node → Text → Option Object
unfolding endpoint_of
wireguard_endpoint n tag = endpoint_of n tag n.wire_guard
