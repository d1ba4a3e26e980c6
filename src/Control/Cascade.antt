-- ===== src/Control/Cascade.antt =====
-- `attemptNode` of core/control/connect.go: one node, under one strategy after the other.
pub mod Fits
pub mod Steady
use tenebra.Prelude.{
  ℕ, ◌+◌, Bool, true, false, not, ◌&&◌, ◌||◌, Option, none, some, List, [], ◌∷◌, Text, codes,
  text_eq, if◌then◌else◌,
}
use tenebra.Model.{Node}
use tenebra.Protection.Guard.{Failure, State, Backend, Guard, accepted, interrupted}
use tenebra.Protection.Dns.{Parsers}
use tenebra.Routing.Options.{Options}
use tenebra.Fallback.LastGood.{LastGood}
use tenebra.Fallback.Machine.{Attempt, Machine, success}
use tenebra.Fallback.Strategy.{Strategy, default_strategies}
use tenebra.Fallback.Classify.{
  Dial, FailureClass, censored, dead, unknown, class_name, classify_attempt_failure,
}
use tenebra.Control.Candidates.{apply_strategy_to_nodes}
use tenebra.Control.Tracker.{
  Item, Snapshot, Outcome, pending, connected, at_node, mark_escalating, mark_blocked,
  mark_succeeded,
}
use tenebra.Control.Proxy.{Proxy, ProxyCalls, AfterProxy, arm_system_proxy}
use tenebra.Control.Protect.{Tun, is_system_proxy, activate_protection}
use tenebra.Control.Probe.{Round, Probed, probe_until_up}
use tenebra.Control.State.{
  Start, started, refused, Env, Built, Plan, Phase, idle, connecting, up, failed, Problem,
  all_failed, cancelled, local_setup, system_proxy, host_protection, Status, Event, attempts_event,
  state_event, Walk, NodeOutcome, node_connected, node_superseded, node_failed, node_local_failure,
  tick, stop, set_state, gone, publish, track, Done, done,
}
use tenebra.Control.Success.{record_success}

-- How one strategy ends: the node's outcome with its reason, the cascade left, or the next
-- strategy.
pub data Verdict : Type 0 where
  over : NodeOutcome → Text → Verdict
  gave_up escalate : Verdict

pub record Tried (S H : Type 0) : Type 0 where
  pub verdict : Verdict
  pub walk : Walk S H

abbrev pub tried : {S H : Type 0} → Verdict → Walk S H → Tried S H
tried v w = record { verdict = v; walk = w }

-- What `attemptNode` returns.
pub record Reached (S H : Type 0) : Type 0 where
  pub outcome : NodeOutcome
  pub reason : Text
  pub walk : Walk S H

abbrev pub reached : {S H : Type 0} → NodeOutcome → Text → Walk S H → Reached S H
reached o reason w = record { outcome = o; reason = reason; walk = w }

abbrev pub is_censored : FailureClass → Bool
is_censored censored = true
is_censored dead = false
is_censored unknown = false

abbrev pub first : List Strategy → Option Strategy
first [] = none
first (s ∷ ss) = some s

-- The reason of a node that was given up.
abbrev pub reason_of : Bool → Text
reason_of interfered = if interfered then class_name censored else codes ""

module _ {S H : Type 0} ⦃lg : LastGood S⦄ (b : Backend H) (env : Env) (plan : Plan) where
  -- A success that could not be recorded.
  unfoldable pub after_record : Attempt → Walk S H → Option Problem → Tried S H
  unfolding set_state track
  after_record a w none = tried (over node_connected (codes "")) w
  after_record a w (some p) =
      let w1 = record w { running = false; guard = interrupted w.guard } in
      let w2 = track env a.node_id (mark_blocked (codes "local setup failed")) pending (tick w1) in
      tried (over node_local_failure (codes "")) (
        if env.current w1.clock
        then set_state failed plan.profile_id (codes "") (some p) w2
        else tick w1)

  -- The escalation to the next strategy, if there is one.
  unfoldable pub after_stall : Attempt → Option Strategy → Bool → Walk S H → Tried S H
  unfolding track
  after_stall a none stalled w = tried gave_up w
  after_stall a (some next) stalled w =
      let class = classify_attempt_failure (env.dial w.clock) a.node stalled in
      if is_censored class
      then tried escalate (track env a.node_id (mark_escalating next) pending (tick w))
      else tried gave_up (tick w)

  -- What follows the probe.
  unfoldable pub after_probe :
      Attempt → Strategy → Option Strategy → Built → Walk S H → Probed → Tried S H
  after_probe a strat next sel w p =
      let r = record_success b env plan a strat sel w in
      if p.up
      then after_record a r.walk r.problem
      else if not (env.current w.clock)
      then tried (over node_superseded (codes "")) (stop (tick w))
      else after_stall a next p.stalled (stop (tick w))

  -- What follows the start of the process.
  unfoldable pub after_start :
      Attempt → Strategy → Option Strategy → Built → Walk S H → Start → Tried S H
  unfolding track set_state
  after_start a strat next sel w started =
      after_probe a strat next sel (record w { clock = w.clock + 1; running = true })
        (probe_until_up env.probe_timeout (env.warm w.clock sel.json)
          (text_eq sel.default (codes "")) (env.rounds w.clock sel.json))
  after_start a strat next sel w (refused is_local e) =
      let blocked =
        track env a.node_id (mark_blocked (codes "local setup failed")) pending (stop (tick w)) in
      if not (env.current w.clock)
      then tried (over node_superseded (codes "")) (stop (tick w))
      else if is_local
      then tried (over node_local_failure (codes ""))
          (set_state failed plan.profile_id (codes "") (some (local_setup e)) blocked)
      else tried (over node_failed (codes "")) (tick w)

  -- What follows the build of the configuration.
  unfoldable pub after_build :
      Attempt → Strategy → Option Strategy → Walk S H → Option Built → Tried S H
  after_build a strat next w none = tried (over node_failed (codes "")) w
  after_build a strat next w (some sel) =
      after_start a strat next sel (tick w) (env.start w.clock sel.json)

  -- One round of the loop over the strategies.
  unfoldable pub try_strategy : Attempt → Strategy → Option Strategy → Walk S H → Tried S H
  try_strategy a strat next w =
      let nodes = apply_strategy_to_nodes plan.nodes plan.node_ids a.node_id strat in
      if gone env w
      then tried (over node_superseded (codes "")) (stop (tick w))
      else after_build a strat next (tick w) (env.build nodes (plan.tag a.node_id))

  -- The loop over the strategies; the flag says that a failure looked like interference.
  unfoldable pub try_strategies : Attempt → List Strategy → Bool → Walk S H → Reached S H
  try_strategies a [] interfered w = reached node_failed (reason_of interfered) w
  try_strategies a (s ∷ ss) interfered w = elim ((try_strategy a s (first ss) w).verdict) [
    | over o reason ↦ reached o reason (try_strategy a s (first ss) w).walk
    | gave_up ↦ reached node_failed (reason_of interfered) (try_strategy a s (first ss) w).walk
    | escalate ↦ try_strategies a ss true (try_strategy a s (first ss) w).walk
  ]

  -- `attemptNode`.
  unfoldable pub attempt_node : Attempt → Walk S H → Reached S H
  unfolding try_strategies
  attempt_node a w = try_strategies a default_strategies false w
