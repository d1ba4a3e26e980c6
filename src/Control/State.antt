-- ===== src/Control/State.antt =====
-- The state of a walk in core/control/connect.go, and what surrounds it. The daemon
-- shares its generation, its context and its settings with other goroutines: what the walk reads
-- there, and what its calls return, is given by the moment, and each such step is one tick of the
-- clock. Log lines, and the goroutines that `recordSuccess` starts at its end, are left out.
pub mod Same
use tenebra.Prelude.{
  ℕ, ◌+◌, Bool, true, false, not, ◌&&◌, ◌||◌, Option, none, some, List, [], ◌∷◌, Text, codes,
  text_eq, if◌then◌else◌,
}
use tenebra.Model.{Node}
use tenebra.Protection.Guard.{Failure, State, Backend, Guard, accepted, interrupted}
use tenebra.Protection.Dns.{Parsers}
use tenebra.Routing.Options.{Options}
use tenebra.Fallback.LastGood.{LastGood}
use tenebra.Fallback.Machine.{Attempt, Machine, success}
use tenebra.Fallback.Strategy.{Strategy, default_strategies}
use tenebra.Fallback.Classify.{
  Dial, FailureClass, censored, dead, unknown, class_name, classify_attempt_failure,
}
use tenebra.Control.Candidates.{apply_strategy_to_nodes}
use tenebra.Control.Tracker.{
  Item, Snapshot, Outcome, pending, connected, at_node, mark_escalating, mark_blocked,
  mark_succeeded,
}
use tenebra.Control.Proxy.{Proxy, ProxyCalls, AfterProxy, arm_system_proxy}
use tenebra.Control.Protect.{Tun, is_system_proxy, activate_protection}
use tenebra.Control.Probe.{Round, Probed, probe_until_up}

-- What `runner.Start` returns: an error says whether it is a `LocalSetupFailure`.
pub data Start : Type 0 where
  started : Start
  refused : Bool → Text → Start

-- What `buildConfigJSON` returns: the configuration, and the shape of its selector.
pub record Built : Type 0 where
  pub json : Text
  pub default : Text
  pub members : List Text

-- The surroundings of a walk: `ctx.Err() != nil`, `isCurrent`, the kill switch of the live options,
-- and the results of the calls. `build` is `buildConfigJSON` on the options of the plan, where
-- `none` is an error.
pub record Env : Type 0 where
  pub cancelled : ℕ → Bool
  pub current : ℕ → Bool
  pub kill_switch : ℕ → Bool
  pub build : List Node → Text → Option Built
  pub start : ℕ → Text → Start
  pub warm : ℕ → Text → Bool
  pub rounds : ℕ → Text → List Round
  pub dial : ℕ → Dial
  pub proxy : ℕ → ProxyCalls
  pub parsers : Parsers
  pub default_tun_name : Text
  pub probe_timeout : ℕ

-- `fallbackLoop`, less the machine and the generation.
pub record Plan : Type 0 where
  pub profile_id : Text
  pub nodes : List Node
  pub node_ids : List Text
  pub tag : Text → Text
  pub options : Options
  pub tun : Tun
  pub remember : Bool
  pub requested_node : Text

pub data Phase : Type 0 where
  idle connecting up failed : Phase

-- Why a walk ends in an error.
pub data Problem : Type 0 where
  all_failed cancelled : Problem
  local_setup system_proxy : Text → Problem
  host_protection : Failure → Problem

-- `State`, as far as a walk sets it.
pub record Status : Type 0 where
  pub phase : Phase
  pub profile : Text
  pub node : Text
  pub problem : Option Problem
  pub protection : State

pub data Event : Type 0 where
  attempts_event : Snapshot → Event
  state_event : Status → Event

-- What a walk changes. The last event is the first of the list.
pub record Walk (S H : Type 0) : Type 0 where
  pub clock : ℕ
  pub machine : Machine S
  pub items : List Item
  pub attempts : Option Snapshot
  pub running : Bool
  pub status : Status
  pub events : List Event
  pub guard : Guard
  pub host : H
  pub proxy : Proxy
  pub live : Option (Text × Built)
  pub last_conn : Text × Text

-- `nodeOutcome`.
pub data NodeOutcome : Type 0 where
  node_connected node_superseded node_failed node_local_failure : NodeOutcome

module _ {S H : Type 0} where
  abbrev pub tick : Walk S H → Walk S H
  tick w = record w { clock = w.clock + 1 }

  -- `runner.Stop`, whose error is dropped.
  abbrev pub stop : Walk S H → Walk S H
  stop w = record w { running = false }

  -- `setState`, which adds what the guard says.
  unfoldable pub set_state : Phase → Text → Text → Option Problem → Walk S H → Walk S H
  set_state phase profile node problem w =
      let s : Status = record {
        phase = phase;
        profile = profile;
        node = node;
        problem = problem;
        protection = w.guard.state;
      } in
      record w { status = s; events = state_event s ∷ w.events }

  -- The test `ctx.Err() != nil || !d.isCurrent(gen)`.
  abbrev pub gone : Env → Walk S H → Bool
  gone env w = env.cancelled w.clock || not (env.current w.clock)

  -- `publish` and `emitAttempts`: nothing happens once the generation has moved.
  unfoldable pub publish : Env → Outcome → Walk S H → Walk S H
  publish env outcome w =
      let snap : Snapshot = record { items = w.items; outcome = outcome } in
      if env.current w.clock
      then record w {
        clock = w.clock + 1;
        attempts = some snap;
        events = attempts_event snap ∷ w.events;
      }
      else tick w

  -- A change of the tracker's item of a node, and the snapshot after it.
  unfoldable pub track : Env → Text → (Item → Item) → Outcome → Walk S H → Walk S H
  unfolding publish
  track env id f outcome w = publish env outcome (record w { items = at_node id f w.items })

-- A walk after an operation that may fail.
pub record Done (S H : Type 0) : Type 0 where
  pub walk : Walk S H
  pub problem : Option Problem

abbrev pub done : {S H : Type 0} → Walk S H → Option Problem → Done S H
done w p = record { walk = w; problem = p }
