-- ===== src/Control/Recovery.antt =====
-- The budget of the moves that the daemon makes on its own: `allowAutoRecovery`,
-- `recordAutoSwitch`, and how `autoSwitchAway` of core/control/hotswitch.go and `healthFailover` of
-- health.go use them. Times count from the start of the process, on the monotonic clock. Whether a
-- move that is allowed takes place, which the scan, the selector and the stored profile decide, is
-- given. Both callers hold `connMu` from the check to the record, so no other move lies between; a
-- check alone may, which forgets old moves, and is then put before or behind.
pub mod Budget
use tenebra.Prelude.{
  ℕ, ◌+◌, Bool, true, false, not, ◌&&◌, ◌||◌, List, [], ◌∷◌, ◌++◌, ◌==◌, Text, codes, text_eq, keep,
  length, ltb, leb, if◌then◌else◌,
}

pub record Limits : Type 0 where
  pub cooldown : ℕ
  pub window : ℕ
  pub max_switches : ℕ

-- What the check reads of the daemon.
pub record Session : Type 0 where
  pub generation : ℕ
  pub profile : Text
  pub connected : Bool
  pub auto_failover : Bool

-- The times of the moves, and when each node last ran out of probes.
pub record Recovery : Type 0 where
  pub switches : List ℕ
  pub degraded_at : List (Text × ℕ)

-- The window has not passed since the move.
abbrev pub is_recent : Limits → ℕ → ℕ → Bool
is_recent l now t = ltb now (t + l.window)

-- The last move is too close.
unfoldable pub is_cooling : Limits → ℕ → List ℕ → Bool
is_cooling l now [] = false
is_cooling l now (t ∷ []) = ltb now (t + l.cooldown)
is_cooling l now (t ∷ u ∷ us) = is_cooling l now (u ∷ us)

-- A write into the map.
unfoldable pub mark : Text → ℕ → List (Text × ℕ) → List (Text × ℕ)
mark node now [] = (node, now) ∷ []
mark node now (d ∷ ds) =
    let rest = mark node now ds in if text_eq d.0 node then (node, now) ∷ ds else d ∷ rest

abbrev pub note_degraded : Text → ℕ → List (Text × ℕ) → List (Text × ℕ)
note_degraded node now ds = if text_eq node (codes "") then ds else mark node now ds

abbrev pub is_session : Session → ℕ → Text → Bool
is_session s gen profile =
    (s.generation == gen) && text_eq s.profile profile && s.connected && s.auto_failover

-- The answer of a check, and the state that it leaves.
pub record Checked : Type 0 where
  pub allowed : Bool
  pub recovery : Recovery

-- `allowAutoRecovery`: a refusal, too, marks the node and forgets the old moves.
unfoldable pub allow_auto_recovery : Limits → Session → ℕ → Text → Text → ℕ → Recovery → Checked
unfolding is_cooling
allow_auto_recovery l s gen profile degraded now r =
    let recent = keep (is_recent l now) r.switches in
    record {
      allowed =
          is_session s gen profile
          && not (is_cooling l now recent)
          && not (leb l.max_switches (length recent));
      recovery = record {
        switches = recent;
        degraded_at = note_degraded degraded now r.degraded_at;
      };
    }

-- `recordAutoSwitch`.
abbrev pub record_auto_switch : ℕ → Recovery → Recovery
record_auto_switch now r = record r { switches = r.switches ++ (now ∷ []) }

-- A check, whether the move then takes place, and when it is recorded.
pub record Attempted : Type 0 where
  pub session : Session
  pub generation : ℕ
  pub profile : Text
  pub degraded : Text
  pub now : ℕ
  pub carried_out : Bool
  pub recorded_at : ℕ

-- The state, with every move that was ever recorded.
pub record History : Type 0 where
  pub recovery : Recovery
  pub moves : List ℕ

unfoldable pub settle : Attempted → Checked → List ℕ → History
settle a c moves =
    if c.allowed && a.carried_out
    then record {
      recovery = record_auto_switch a.recorded_at c.recovery;
      moves = moves ++ (a.recorded_at ∷ []);
    }
    else record { recovery = c.recovery; moves = moves }

-- One check with the move that follows it.
unfoldable pub recover : Limits → Attempted → History → History
unfolding allow_auto_recovery settle
recover l a h =
    settle a (allow_auto_recovery l a.session a.generation a.profile a.degraded a.now h.recovery)
      h.moves

unfoldable pub recover_all : Limits → List Attempted → History → History
recover_all l [] h = h
recover_all l (a ∷ as') h = recover_all l as' (recover l a h)

-- A daemon that starts.
abbrev pub fresh : History
fresh = record { recovery = record { switches = []; degraded_at = [] }; moves = [] }
