-- ===== src/Singbox/Tun.antt =====
-- `TunOptions` of core/singbox/builder.go with `normalize`, the inbounds, and the addresses of
-- tunaddr.go. The name of the interface on the platform is given.
use tenebra.Prelude.{
  Bool, true, not, ◌||◌, List, [], ◌∷◌, Text, codes, text_eq, ℤ, pos, eq_int, if◌then◌else◌,
}
use tenebra.Prelude.Json.{text, number, flag, texts, Object, fields, put_some}
use tenebra.Singbox.Validate.{is_empty}
use tenebra.Singbox.Tags.{trim_space}
use tenebra.Singbox.Outbound.{when, given}

abbrev pub mode_tun : Text
mode_tun = codes "tun"

abbrev pub mode_system_proxy : Text
mode_system_proxy = codes "system-proxy"

abbrev pub default_stack : Text
default_stack = codes "system"

abbrev pub default_mixed_port : ℤ
default_mixed_port = pos 2080

abbrev pub default_mtu : ℤ
default_mtu = pos 9000

abbrev pub default_clash_api_port : ℤ
default_clash_api_port = pos 9090

-- `ValidMode`.
unfoldable pub valid_mode : Text → Bool
valid_mode s = text_eq s mode_tun || text_eq s mode_system_proxy

-- `ValidStack`.
unfoldable pub valid_stack : Text → Bool
valid_stack s = text_eq s default_stack || text_eq s (codes "gvisor") || text_eq s (codes "mixed")

pub record TunOptions : Type 0 where
  pub mode : Text
  pub mixed_port : ℤ
  pub interface_name : Text
  pub mtu : ℤ
  pub stack : Text
  pub external_tun : Bool
  pub clash_api_port : ℤ
  pub address : Text
  pub address6 : Text
  pub cache_dir : Text

or_text : Text → Text → Text
or_text t d = if is_empty t then d else t

or_number : ℤ → ℤ → ℤ
or_number n d = if eq_int n (pos 0) then d else n

-- `normalize`.
unfoldable pub normalize_tun : Text → TunOptions → TunOptions
unfolding or_text or_number
normalize_tun platform_name t = record t {
  mode = or_text t.mode mode_tun;
  mixed_port = or_number t.mixed_port default_mixed_port;
  interface_name = or_text t.interface_name platform_name;
  mtu = or_number t.mtu default_mtu;
  stack = or_text t.stack default_stack;
  clash_api_port = or_number t.clash_api_port default_clash_api_port;
}

-- `tunAddressesFor`.
unfoldable pub tun_addresses_for : TunOptions → List Text
unfolding or_text
tun_addresses_for t =
    or_text (trim_space t.address) (codes "172.19.0.1/30")
    ∷ or_text (trim_space t.address6) (codes "fdfe:dcba:9876::1/126")
    ∷ []

-- `mixedInbound`.
unfoldable pub mixed_inbound : ℤ → Object
mixed_inbound port = fields (
    (codes "type", text (codes "mixed"))
    ∷ (codes "tag", text (codes "mixed-in"))
    ∷ (codes "listen", text (codes "127.0.0.1"))
    ∷ (codes "listen_port", number port)
    ∷ [])

-- `tunInbound`.
unfoldable pub tun_inbound : TunOptions → Bool → Object
unfolding tun_addresses_for
tun_inbound t strict_route = put_some (codes "interface_name") (given t.interface_name) (
    put_some (codes "strict_route") (when (not t.external_tun) (flag strict_route)) (
      put_some (codes "auto_route") (when (not t.external_tun) (flag true)) (
        fields (
          (codes "type", text (codes "tun"))
          ∷ (codes "tag", text (codes "tun-in"))
          ∷ (codes "address", texts (tun_addresses_for t))
          ∷ (codes "mtu", number t.mtu)
          ∷ (codes "stack", text t.stack)
          ∷ []))))

-- `inbound`.
unfoldable pub inbound : TunOptions → Bool → Object
unfolding mixed_inbound tun_inbound
inbound t strict_route =
    if text_eq t.mode mode_system_proxy
    then mixed_inbound t.mixed_port
    else tun_inbound t strict_route
