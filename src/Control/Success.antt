-- ===== src/Control/Success.antt =====
-- `recordSuccess` of core/control/connect.go.
pub mod Recorded
pub mod Steady
use tenebra.Prelude.{
  ℕ, ◌+◌, Bool, true, false, not, ◌&&◌, ◌||◌, Option, none, some, List, [], ◌∷◌, Text, codes,
  text_eq, if◌then◌else◌,
}
use tenebra.Model.{Node}
use tenebra.Protection.Guard.{Failure, State, Backend, Guard, accepted, interrupted}
use tenebra.Protection.Dns.{Parsers}
use tenebra.Routing.Options.{Options}
use tenebra.Fallback.LastGood.{LastGood}
use tenebra.Fallback.Machine.{Attempt, Machine, success}
use tenebra.Fallback.Strategy.{Strategy, default_strategies}
use tenebra.Fallback.Classify.{
  Dial, FailureClass, censored, dead, unknown, class_name, classify_attempt_failure,
}
use tenebra.Control.Candidates.{apply_strategy_to_nodes}
use tenebra.Control.Tracker.{
  Item, Snapshot, Outcome, pending, connected, at_node, mark_escalating, mark_blocked,
  mark_succeeded,
}
use tenebra.Control.Proxy.{Proxy, ProxyCalls, AfterProxy, arm_system_proxy}
use tenebra.Control.Protect.{Tun, is_system_proxy, activate_protection}
use tenebra.Control.Probe.{Round, Probed, probe_until_up}
use tenebra.Control.State.{
  Start, started, refused, Env, Built, Plan, Phase, idle, connecting, up, failed, Problem,
  all_failed, cancelled, local_setup, system_proxy, host_protection, Status, Event, attempts_event,
  state_event, Walk, NodeOutcome, node_connected, node_superseded, node_failed, node_local_failure,
  tick, stop, set_state, gone, publish, track, Done, done,
}

module _ {S H : Type 0} ⦃lg : LastGood S⦄ (b : Backend H) (env : Env) (plan : Plan) where
  -- From `machine.Success` to `rememberLastConn`. The store of the machine and `d.lastGood` are one.
  unfoldable pub settle : Attempt → Built → Walk S H → Walk S H
  settle a sel w =
      let m = success w.machine a in
      let remembered = record m {
        last_good = elim m.last_good [
          | none ↦ none
          | some s ↦ some (lg.set s plan.profile_id a.node_id)
        ];
      } in
      record w {
        clock = w.clock + 1;
        machine = remembered;
        live = if env.current w.clock then some (plan.profile_id, sel) else w.live;
        last_conn = if plan.remember then (plan.profile_id, plan.requested_node) else w.last_conn;
      }

  -- The publications of `recordSuccess`.
  unfoldable pub promote : Attempt → Strategy → Built → Walk S H → Walk S H
  unfolding track set_state settle
  promote a strat sel w =
      let w1 = track env a.node_id (mark_succeeded strat) connected (settle a sel w) in
      set_state up plan.profile_id a.node_id none (record w1 { guard = accepted w1.guard })

  -- The last test of `recordSuccess`, and what follows it.
  unfoldable pub accept : Attempt → Strategy → Built → Walk S H → Done S H
  accept a strat sel w =
      if gone env w
      then done (tick w) (some cancelled)
      else done (promote a strat sel (tick w)) none

  after_proxy : Attempt → Strategy → Built → Walk S H → Option Text → Done S H
  unfolding accept
  after_proxy a strat sel w (some e) = done w (some (system_proxy e))
  after_proxy a strat sel w none = accept a strat sel w

  -- The system proxy, where the plan wants it.
  arm_proxy : Attempt → Strategy → Built → Walk S H → Done S H
  unfolding after_proxy
  arm_proxy a strat sel w =
      let armed = arm_system_proxy w.proxy plan.tun.mixed_host_port (env.proxy w.clock) in
      let w1 = record w { clock = w.clock + 1; proxy = armed.proxy } in
      if is_system_proxy plan.tun
      then after_proxy a strat sel w1 armed.failure
      else accept a strat sel w

  after_protection : Attempt → Strategy → Built → Walk S H → Option Failure → Done S H
  unfolding arm_proxy
  after_protection a strat sel w (some f) = done w (some (host_protection f))
  after_protection a strat sel w none = arm_proxy a strat sel w

  -- `recordSuccess`.
  unfoldable pub record_success : Attempt → Strategy → Built → Walk S H → Done S H
  unfolding after_protection
  record_success a strat sel w =
      let w1 = tick w in
      let r =
        activate_protection b env.parsers env.default_tun_name (env.kill_switch w1.clock)
          plan.options plan.tun w1.guard w1.host in
      let w2 = record w1 { clock = w1.clock + 1; guard = r.guard; host = r.host } in
      if gone env w then done w1 (some cancelled) else after_protection a strat sel w2 r.failure
