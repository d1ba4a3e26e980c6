-- ===== src/Control/Walk.antt =====
-- `runFallback` of core/control/connect.go. Its loop has fuel, one unit for each turn.
pub mod Ends
pub mod Connects
pub mod Protected
use tenebra.Prelude.{
  ℕ, zero, suc, Bool, true, false, Option, none, some, List, Text, codes, if◌then◌else◌,
}
use tenebra.Protection.Guard.{Backend}
use tenebra.Fallback.LastGood.{LastGood}
use tenebra.Fallback.Machine.{Attempt, Machine, next, failure}
use tenebra.Control.Tracker.{pending, exhausted, new_attempt_tracker, mark_trying, mark_blocked}
use tenebra.Control.State.{
  Env, Plan, failed, all_failed, Walk, NodeOutcome, node_connected, node_superseded, node_failed,
  node_local_failure, tick, stop, set_state, gone, publish, track,
}
use tenebra.Control.Cascade.{attempt_node}

-- How a walk ends.
pub data End : Type 0 where
  ended_connected ended_superseded ended_local ended_exhausted : End

pub record Ended (S H : Type 0) : Type 0 where
  pub end : End
  pub walk : Walk S H

abbrev pub ended : {S H : Type 0} → End → Walk S H → Ended S H
ended e w = record { end = e; walk = w }

module _ {S H : Type 0} ⦃lg : LastGood S⦄ (b : Backend H) (env : Env) (plan : Plan) where
  -- The machine is exhausted.
  unfoldable pub exhaust : Walk S H → Walk S H
  unfolding publish set_state
  exhaust w =
      let w1 = publish env exhausted (tick w) in
      if env.current w.clock
      then set_state failed plan.profile_id (codes "") (some all_failed) w1
      else tick w

  -- A failed candidate, and the next.
  unfoldable pub move_on : Attempt → Text → Walk S H → Walk S H
  unfolding track
  move_on a reason w =
      let w1 = track env a.node_id (mark_blocked reason) pending w in
      record w1 { machine = failure w1.machine a }

  -- What the loop makes of a node's outcome: an end, or the next turn.
  unfoldable pub turn : Attempt → NodeOutcome → Text → Walk S H → Walk S H × Option End
  turn a node_connected reason w = (w, some ended_connected)
  turn a node_superseded reason w = (w, some ended_superseded)
  turn a node_local_failure reason w = (w, some ended_local)
  turn a node_failed reason w = (move_on a reason w, none)

  -- The attempt at a candidate.
  unfoldable pub take_turn : Attempt → Walk S H → Walk S H × Option End
  unfolding track turn
  take_turn a w =
      let t = attempt_node b env plan a (track env a.node_id mark_trying pending w) in
      turn a t.outcome t.reason t.walk

  unfoldable pub run_loop : ℕ → Walk S H → Option (Ended S H)
  run_loop zero w = none
  run_loop (suc fuel) w =
      if gone env w then some (ended ended_superseded (stop (tick w))) else elim (next w.machine) [
        | none ↦ some (ended ended_exhausted (exhaust (tick w)))
        | some a ↦ elim (take_turn a (tick w)).1 [
          | some e ↦ some (ended e (take_turn a (tick w)).0)
          | none ↦ run_loop fuel (take_turn a (tick w)).0
        ]
      ]

  -- `runFallback`.
  unfoldable pub run_fallback : ℕ → Walk S H → Option (Ended S H)
  unfolding run_loop publish
  run_fallback fuel w =
      run_loop fuel (publish env pending (record w { items = new_attempt_tracker w.machine }))
