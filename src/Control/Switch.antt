-- ===== src/Control/Switch.antt =====
-- The live switch of core/control/hotswitch.go: `liveSwitchTarget`, `switchNode`, `confirmSwitch` and
-- `commitSwitch`. The callers hold `connMu`, so no connect or teardown lies inside a switch. What
-- the process does with a request, and what a probe through it returns, is given; log lines are
-- left out.
pub mod Kept
pub mod Scan
use tenebra.Prelude.{
  ℕ, Bool, true, false, not, ◌&&◌, ◌||◌, Option, none, some, List, [], ◌∷◌, ◌==◌, any, Text, codes,
  text_eq, if◌then◌else◌,
}
use tenebra.Model.{Protocol}
use tenebra.Profile.{Server, Profile}
use tenebra.Protection.Guard.{State}
use tenebra.Fallback.LastGood.{MemLastGood, set}
use tenebra.Singbox.Validate.{is_empty}
use tenebra.Control.Tags.{tag_for}
use tenebra.Control.Tracker.{Item, Snapshot, succeeded, connected}
use tenebra.Control.State.{Phase, up, Status, Event, attempts_event, state_event}
use tenebra.Control.Recovery.{Recovery}

-- `liveConfig`, with `selectorShape`.
pub record LiveConfig : Type 0 where
  pub generation : ℕ
  pub profile_id : Text
  pub tag_of : List (Text × Text)
  pub default : Text
  pub members : List Text

-- `selectorShape.has`.
unfoldable pub has_member : LiveConfig → Text → Bool
has_member c tag = any (text_eq tag) c.members

-- What a switch reads and changes of the daemon, and the outbound that the selector of the running
-- process is on.
pub record Line : Type 0 where
  pub generation : ℕ
  pub status : Status
  pub live : Option LiveConfig
  pub selected : Text
  pub last_good : Option MemLastGood
  pub last_conn : Text × Text
  pub attempts : Option Snapshot
  pub events : List Event
  pub recovery : Recovery
  pub auto_failover : Bool

-- What comes of `Select`: no error, an error, or an error of a request that the process has served.
pub data Steered : Type 0 where
  steered refused lost : Steered

-- The answers to one switch: of `Select`, of the probes until the budget ends, and of the `Select`
-- that takes it back.
pub record Steering : Type 0 where
  pub put : Steered
  pub probes : List Bool
  pub undo : Steered

pub record Target : Type 0 where
  pub tag : Text
  pub prev_tag : Text
  pub prev_node : Text

abbrev pub is_up : Phase → Bool
is_up up = true
is_up _ = false

unfoldable pub target_in : Line → Text → Text → Option LiveConfig → Option Target
unfolding has_member
target_in w profile_id node_id none = none
target_in w profile_id node_id (some c) =
    let tag = tag_for c.tag_of node_id in
    if not (is_up w.status.phase)
    then none
    else if not (c.generation == w.generation)
        || not (text_eq c.profile_id profile_id)
        || not (text_eq w.status.profile profile_id)
    then none
    else if is_empty node_id || text_eq node_id w.status.node
    then none
    else if is_empty tag || not (has_member c tag)
    then none
    else some
        (record { tag = tag; prev_tag = tag_for c.tag_of w.status.node; prev_node = w.status.node })

-- `liveSwitchTarget`.
unfoldable pub live_switch_target : Line → Text → Text → Option Target
unfolding target_in
live_switch_target w profile_id node_id = target_in w profile_id node_id w.live

-- The selector after a request for a tag.
unfoldable pub point : Steered → Text → Line → Line
point steered tag w = record w { selected = tag }
point refused tag w = w
point lost tag w = record w { selected = tag }

abbrev pub is_steered : Steered → Bool
is_steered steered = true
is_steered _ = false

-- `confirmSwitch`: the first probe that succeeds ends the loop.
unfoldable pub confirm_switch : List Bool → Bool
confirm_switch [] = false
confirm_switch (true ∷ ps) = true
confirm_switch (false ∷ ps) = confirm_switch ps

-- The protocol of the node in the stored profile.
unfoldable pub protocol_of : List Server → Text → Protocol
protocol_of [] id = codes ""
protocol_of (s ∷ ss) id =
    let rest = protocol_of ss id in if text_eq s.id id then s.node.protocol else rest

abbrev pub servers_of : Option Profile → List Server
servers_of none = []
servers_of (some p) = p.servers

-- `emitSwitchAttempt`, in the generation that it reads.
unfoldable pub emit_switch_attempt : Option Profile → Text → Line → Line
emit_switch_attempt stored node_id w =
    let item : Item = record {
      seq = 1;
      protocol = protocol_of (servers_of stored) node_id;
      node = node_id;
      progress = succeeded;
      last_good = true;
      strategy = codes "";
      reason = codes "";
    } in
    let snap : Snapshot = record { items = item ∷ []; outcome = connected } in
    record w { attempts = some snap; events = attempts_event snap ∷ w.events }

-- `setState` for a tunnel that is up, with what the guard says.
unfoldable pub set_up : State → Text → Text → Line → Line
set_up protection profile_id node_id w =
    let s : Status = record {
      phase = up;
      profile = profile_id;
      node = node_id;
      problem = none;
      protection = protection;
    } in
    record w { status = s; events = state_event s ∷ w.events }

abbrev pub set_good : Text → Text → Option MemLastGood → Option MemLastGood
set_good profile_id node_id none = none
set_good profile_id node_id (some m) = some (set m profile_id node_id)

-- `commitSwitch`.
unfoldable pub commit_switch : Option Profile → State → Text → Text → Bool → Line → Line
unfolding emit_switch_attempt set_up
commit_switch stored protection profile_id node_id remember w =
    let w1 : Line = record w {
      last_good = set_good profile_id node_id w.last_good;
      last_conn = if remember then (profile_id, node_id) else w.last_conn;
    } in
    set_up protection profile_id node_id (emit_switch_attempt stored node_id w1)

-- Whether a switch took, and the line behind it.
pub record Switched : Type 0 where
  pub took : Bool
  pub line : Line

-- The exit that worked is put back.
unfoldable pub take_back : Steered → Text → Line → Line
unfolding point
take_back undo prev_tag w = if is_empty prev_tag then w else point undo prev_tag w

unfoldable pub steer :
    Steering → Option Profile → State → Text → Text → Bool → Line → Target → Switched
unfolding point commit_switch take_back
steer a stored protection profile_id node_id remember w t =
    let w1 = point a.put t.tag w in
    if not (is_steered a.put)
    then record { took = false; line = w1 }
    else if not (confirm_switch a.probes)
    then record { took = false; line = take_back a.undo t.prev_tag w1 }
    else record {
      took = true;
      line = commit_switch stored protection profile_id node_id remember w1;
    }

steer_to : Steering → Option Profile → State → Text → Text → Bool → Line → Option Target → Switched
unfolding steer
steer_to a stored protection profile_id node_id remember w none = record { took = false; line = w }
steer_to a stored protection profile_id node_id remember w (some t) =
    steer a stored protection profile_id node_id remember w t

-- `switchNode`.
unfoldable pub switch_node :
    Steering → Option Profile → State → Text → Text → Bool → Line → Switched
unfolding steer_to
switch_node a stored protection profile_id node_id remember w =
    steer_to a stored protection profile_id node_id remember w
      (live_switch_target w profile_id node_id)
