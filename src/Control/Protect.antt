-- ===== src/Control/Protect.antt =====
-- core/control/protection.go: when a connection asks the guard of the host for the block, and for
-- the tunnel. Of an error, the guard's reason is kept; the daemon's own text is left out.
use tenebra.Prelude.{
  Bool, true, false, not, ◌&&◌, Option, none, some, Text, codes, text_eq, if◌then◌else◌,
}
use tenebra.Protection.Guard.{
  Failure, native, Status, error, Backend, Guard, After, prepare, verify_tunnel, fail,
}
use tenebra.Protection.Dns.{Parsers, DnsRefusal, validate_dns}
use tenebra.Routing.Options.{Options, normalize}

-- `singbox.TunOptions`, as far as it is read here; the last field is what `MixedHostPort` returns.
pub record Tun : Type 0 where
  pub mode : Text
  pub interface_name : Text
  pub address : Text
  pub mixed_host_port : Text

-- `IsSystemProxy`.
unfoldable pub is_system_proxy : Tun → Bool
is_system_proxy t = text_eq t.mode (codes "system-proxy")

abbrev pub is_error : Status → Bool
is_error error = true
is_error _ = false

abbrev pub unchanged : {H : Type 0} → Guard → H → Option Failure → After H
unchanged g h f = record { guard = g; host = h; failure = f }

abbrev pub unresolved : Failure
unresolved = native (codes "unresolved")

abbrev pub dns_refused : Failure
dns_refused = native (codes "dns")

-- `Reject` of the guard, for a resolver that is refused.
unfoldable pub unless_refused : {H : Type 0} → Option DnsRefusal → Guard → H → After H → After H
unless_refused none g h a = a
unless_refused (some r) g h a = record {
  guard = fail g dns_refused;
  host = h;
  failure = some dns_refused;
}

module _ {H : Type 0} (b : Backend H) (parsers : Parsers) where
  -- `prepareProtection`; `wanted` is the kill switch of the daemon's routing.
  unfoldable pub prepare_protection : Bool → Options → Guard → H → After H
  unfolding unless_refused
  prepare_protection wanted ro g h =
      if g.legacy_engine_only
      then unchanged g h none
      else if not wanted && is_error g.state.status
      then unchanged g h (some unresolved)
      else if not wanted && not g.state.enforced
      then unchanged g h none
      else unless_refused (validate_dns parsers (normalize ro).dns_direct) g h (prepare b g h)

  -- `activateProtectionLocked`, with the name of the tunnel where the options give none.
  unfoldable pub activate_protection : Text → Bool → Options → Tun → Guard → H → After H
  unfolding unless_refused is_system_proxy
  activate_protection default_name wanted ro tun g h =
      let name =
        (if text_eq tun.interface_name (codes "") then default_name else tun.interface_name) in
      if g.legacy_engine_only
      then unchanged g h none
      else if not wanted && not g.state.enforced
      then unchanged g h (if is_error g.state.status then some unresolved else none)
      else unless_refused (validate_dns parsers (normalize ro).dns_direct) g h
          (verify_tunnel b g h name tun.address (is_system_proxy tun))
