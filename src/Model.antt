-- ===== src/Model.antt =====
-- core/model/model.go: the normalized proxy node and the parts of its configuration. A pointer
-- that may be nil is an `Option`, and a protocol is the text of its name.
use tenebra.Prelude.{Bool, List, Option, Text, codes, ℤ, text_eq, ◌&&◌, not}

abbrev pub Protocol : Type 0
Protocol = Text

abbrev pub vless : Protocol
vless = codes "vless"

abbrev pub hysteria2 : Protocol
hysteria2 = codes "hysteria2"

abbrev pub shadowsocks : Protocol
shadowsocks = codes "shadowsocks"

abbrev pub trojan : Protocol
trojan = codes "trojan"

abbrev pub vmess : Protocol
vmess = codes "vmess"

abbrev pub amnezia_wg : Protocol
amnezia_wg = codes "amneziawg"

pub record Reality : Type 0 where
  pub public_key : Text
  pub short_id : Text
  pub spider_x : Text

pub record Tls : Type 0 where
  pub enabled : Bool
  pub server_name : Text
  pub insecure : Bool
  pub alpn : List Text
  pub fingerprint : Text
  pub fragment : Bool
  pub reality : Option Reality

pub record Transport : Type 0 where
  pub type : Text
  pub path : Text
  pub host : Text
  pub service_name : Text

pub record Obfs : Type 0 where
  pub type : Text
  pub password : Text

pub record WireGuard : Type 0 where
  pub private_key : Text
  pub peer_public_key : Text
  pub pre_shared_key : Text
  pub local_address : List Text
  pub jc : ℤ
  pub jmin : ℤ
  pub jmax : ℤ
  pub s1 : ℤ
  pub s2 : ℤ
  pub h1 : ℤ
  pub h2 : ℤ
  pub h3 : ℤ
  pub h4 : ℤ

pub record Node : Type 0 where
  pub protocol : Protocol
  pub name : Text
  pub server : Text
  pub port : ℤ
  pub uuid : Text
  pub password : Text
  pub method : Text
  pub flow : Text
  pub security : Text
  pub alter_id : ℤ
  pub tls : Option Tls
  pub transport : Option Transport
  pub obfs : Option Obfs
  pub wire_guard : Option WireGuard
  pub extra : List (Text × Text)

pub record Multihop : Type 0 where
  pub enabled : Bool
  pub entry_id : Text
  pub exit_id : Text

-- `Multihop.Valid`.
unfoldable pub valid : Multihop → Bool
valid m =
    m.enabled
    && not (text_eq m.entry_id (codes ""))
    && not (text_eq m.exit_id (codes ""))
    && not (text_eq m.entry_id m.exit_id)

-- `Multihop.IsZero`.
unfoldable pub is_zero : Multihop → Bool
is_zero m = not m.enabled && text_eq m.entry_id (codes "") && text_eq m.exit_id (codes "")
