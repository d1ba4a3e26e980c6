-- ===== src/Control/Walk/Protected.antt =====
-- The host protection behind a connection of core/control/connect.go.
use tenebra.Prelude.{
  ℕ, ◌+◌, ◌<◌, Bool, true, false, Option, none, some, length, Text, codes, text_eq, if-ind, ◌≡◌,
  if◌then◌else◌,
}
use tenebra.Protection.Guard.{Backend, Guard, After, VerifiedTunnel, active, verify_tunnel}
use tenebra.Protection.Guard.Verified.{IsVerified, verify_tunnel-IsVerified, accepted-active}
use tenebra.Protection.Dns.{Parsers, DnsRefusal, validate_dns}
use tenebra.Fallback.LastGood.{LastGood}
use tenebra.Fallback.Machine.{Attempt}
use tenebra.Routing.Options.{Options, normalize}
use tenebra.Control.Protect.{Tun, is_system_proxy, unless_refused, activate_protection}
use tenebra.Control.State.{Env, Plan, up, Walk}
use tenebra.Control.Success.Recorded.{activation, IsConnected}
use tenebra.Control.Walk.{Ended, ended_connected, run_fallback}
use tenebra.Control.Walk.Ends.{Leftover, run_fallback-Leftover}

module _ {H : Type 0} (b : Backend H) where
  allowed-IsVerified :
      (r : Option DnsRefusal) (g : Guard) (h : H) (a : After H)
      → (a.failure ≡ none → IsVerified b a)
      → (unless_refused r g h a).failure ≡ none
      → IsVerified b (unless_refused r g h a)
  unfolding unless_refused
  allowed-IsVerified none g h a f ok = f ok
  allowed-IsVerified (some r) g h a f ok = cc

  activated-IsVerified :
      (p : Parsers) (name : Text) (wanted : Bool) (ro : Options) (tun : Tun) (g : Guard) (h : H)
      → wanted ≡ true
      → g.legacy_engine_only ≡ false
      → (activate_protection b p name wanted ro tun g h).failure ≡ none
      → IsVerified b (activate_protection b p name wanted ro tun g h)
  unfolding activate_protection
  activated-IsVerified p name false ro tun g h armed modern = absurd (cc armed)
  activated-IsVerified p name true ro tun g h armed modern =
      let named = (if text_eq tun.interface_name (codes "") then name else tun.interface_name) in
      if-ind (λ (a : After H). a.failure ≡ none → IsVerified b a) g.legacy_engine_only _ _
        (λ legacy ok. absurd (cc (legacy, modern)))
        (λ _ ok.
          allowed-IsVerified (validate_dns p (normalize ro).dns_direct) g h
            (verify_tunnel b g h named tun.address (is_system_proxy tun))
            (verify_tunnel-IsVerified b g h named tun.address (is_system_proxy tun)) ok)

module _ {S H : Type 0} ⦃lg : LastGood S⦄ (b : Backend H) (env : Env) (plan : Plan) where
  connected_protected :
      (w w' : Walk S H) (a : Attempt)
      → w.guard.legacy_engine_only ≡ false
      → ((t : ℕ) → env.kill_switch t ≡ true)
      → IsConnected b env plan a w w'
      → (w'.status.phase ≡ up)
        × (w'.status.protection.status ≡ active)
        × ((t : VerifiedTunnel) × (w'.guard.tunnel ≡ some t) × (b.policy w'.host ≡ some t.luid))
  connected_protected w w' a modern armed c =
      let verified =
        activated-IsVerified b env.parsers env.default_tun_name (env.kill_switch c.moment)
          plan.options plan.tun w.guard w.host (armed c.moment) modern c.activated in
      let (act, (t, has, policy)) = accepted-active b (activation b env plan c.moment w) verified in
      (c.phase, cc (c.reported, c.guard, act), (t, cc (c.guard, has), cc (c.host, policy)))

  published :
      (w : Walk S H) (r : Ended S H)
      → r.end ≡ ended_connected
      → Leftover b env plan w r.end r.walk
      → w.guard.legacy_engine_only ≡ false
      → ((t : ℕ) → env.kill_switch t ≡ true)
      → (r.walk.status.phase ≡ up)
        × (r.walk.status.protection.status ≡ active)
        × ((t : VerifiedTunnel) × (r.walk.guard.tunnel ≡ some t)
            × (b.policy r.walk.host ≡ some t.luid))
  published w r connected left modern armed =
      let (on, (a, i, c)) : Leftover b env plan w ended_connected r.walk = rw connected at left in
      connected_protected w r.walk a modern armed c

  -- With the kill switch on, and a guard that does not leave the block to the engine, a walk with
  -- more fuel than candidates ends, and if it ends connected, it publishes `connected` together
  -- with an active guard, and the host permits exactly the interface of the tunnel that the guard
  -- has verified.
  pub run_fallback_protected :
      (fuel : ℕ) (w : Walk S H)
      → w.running ≡ false
      → 0 < fuel
      → length w.machine.order < w.machine.cursor + fuel
      → w.guard.legacy_engine_only ≡ false
      → ((t : ℕ) → env.kill_switch t ≡ true)
      → (r : Ended S H) × (run_fallback b env plan fuel w ≡ some r)
        × (r.end ≡ ended_connected
            → (r.walk.status.phase ≡ up)
              × (r.walk.status.protection.status ≡ active)
              × ((t : VerifiedTunnel) × (r.walk.guard.tunnel ≡ some t)
                  × (b.policy r.walk.host ≡ some t.luid)))
  run_fallback_protected fuel w off p h modern armed =
      let (r, run, left) = run_fallback-Leftover b env plan fuel w off p h in
      (r, run, λ connected. published w r connected left modern armed)
