-- ===== src/Control/Proxy.antt =====
-- core/control/proxy.go: the ownership of the system proxy of the operating system, whose calls are
-- given by what they return.
use tenebra.Prelude.{
  Bool, true, false, ◌&&◌, Option, none, some, Text, codes, text_eq, if◌then◌else◌,
}

-- `proxyArmed`, `proxyApplied` and `proxyTarget` of the daemon.
pub record Proxy : Type 0 where
  pub armed : Bool
  pub applied : Bool
  pub target : Text

-- The errors of `Disable` before an apply, of `Enable`, and of the rollback.
pub record ProxyCalls : Type 0 where
  pub restore : Option Text
  pub enable : Option Text
  pub rollback : Option Text

-- What an operation leaves, and its error.
pub record AfterProxy : Type 0 where
  pub proxy : Proxy
  pub failure : Option Text

after_disable : Proxy → Option Text → AfterProxy
after_disable p none = record {
  proxy = record p { armed = false; target = codes "" };
  failure = none;
}
after_disable p (some e) = record { proxy = p; failure = some e }

-- `disarmSystemProxyLocked`, and `disarmSystemProxy`.
unfoldable pub disarm_system_proxy : Proxy → Option Text → AfterProxy
unfolding after_disable
disarm_system_proxy p disable =
    let released = record p { applied = false } in
    if p.armed then after_disable released disable else record { proxy = released; failure = none }

after_enable : Proxy → Text → Option Text → Option Text → AfterProxy
unfolding disarm_system_proxy
after_enable p hostport none rollback = record {
  proxy = record p { applied = true; target = hostport };
  failure = none;
}
after_enable p hostport (some e) rollback = record {
  proxy = (disarm_system_proxy p rollback).proxy;
  failure = some e;
}

enable_on : Proxy → Option Text → Text → ProxyCalls → AfterProxy
unfolding after_enable
enable_on p (some e) hostport calls = record { proxy = p; failure = some e }
enable_on p none hostport calls =
    after_enable (record p { armed = true }) hostport calls.enable calls.rollback

-- `armSystemProxy`.
unfoldable pub arm_system_proxy : Proxy → Text → ProxyCalls → AfterProxy
unfolding enable_on disarm_system_proxy
arm_system_proxy p hostport calls =
    let restored = disarm_system_proxy p calls.restore in
    if p.applied && text_eq p.target hostport
    then record { proxy = p; failure = none }
    else if p.armed
    then enable_on restored.proxy restored.failure hostport calls
    else enable_on p none hostport calls
