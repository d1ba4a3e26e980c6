-- ===== src/Control/Switch/Scan.antt =====
-- The search for another exit, and the move that follows it: `scanCandidates`, `measureCandidates`,
-- `scanForExit`, `allowAutoSwitch` and `autoSwitchAway` of core/control/hotswitch.go. The clock of
-- each step, the answers of the probes and what other goroutines do before the lock is taken are
-- given. Times count from the start of the process.
pub mod Exit
pub mod Moved
use tenebra.Prelude.{
  ℕ, ◌+◌, Bool, true, false, not, ◌&&◌, ◌||◌, Option, none, some, List, [], ◌∷◌, ◌==◌, map, take,
  length, Text, codes, text_eq, lookup, ltb, ℤ, pos, le_int, if◌then◌else◌,
}
use tenebra.Prelude.Sort.{sort_stable}
use tenebra.Profile.{Server, Profile}
use tenebra.Protection.Guard.{State}
use tenebra.Fallback.LastGood.{MemLastGood, get}
use tenebra.Singbox.Validate.{is_empty}
use tenebra.Nodecheck.{TargetResult, NodeResult, stage_ok, stage_probe, best}
use tenebra.Control.Tags.{tag_for}
use tenebra.Control.Recovery.{Limits, Session, Recovery, allow_auto_recovery, record_auto_switch}
use tenebra.Control.Switch.{LiveConfig, has_member, Line, Steering, Switched, is_up, switch_node}

-- `scanCandidate`.
pub record Candidate : Type 0 where
  pub node_id : Text
  pub tag : Text

-- The node ran out of probes later than the cutoff, which lies `retry` before `now`.
unfoldable pub is_held : ℕ → ℕ → Option ℕ → Bool
is_held now retry none = false
is_held now retry (some at) = ltb now (at + retry)

-- The loop over the servers.
unfoldable pub eligible : LiveConfig → Text → ℕ → ℕ → List (Text × ℕ) → List Server → List Candidate
unfolding is_held
eligible c degraded now retry degraded_at [] = []
eligible c degraded now retry degraded_at (s ∷ ss) =
    let rest = eligible c degraded now retry degraded_at ss in
    let tag = tag_for c.tag_of s.id in
    if text_eq s.id degraded
    then rest
    else if is_held now retry (lookup s.id degraded_at)
    then rest
    else if is_empty tag || not (has_member c tag)
    then rest
    else record { node_id = s.id; tag = tag } ∷ rest

-- The last good node of the profile, where there is one.
unfoldable pub good_of : Option MemLastGood → Text → Text
good_of none profile_id = codes ""
good_of (some m) profile_id = elim (get m profile_id) [ none ↦ codes "" | some id ↦ id ]

-- The sort that puts the last good node first; the IDs of a profile are distinct.
unfoldable pub good_first : Text → Text → List Candidate → List Candidate
good_first good degraded cands =
    if not (is_empty good) && not (text_eq good degraded)
    then sort_stable (λ (a b : Candidate). text_eq a.node_id good) cands
    else cands

-- The cap, where a limit is set.
unfoldable pub capped : ℕ → List Candidate → List Candidate
capped limit cands = if ltb 0 limit && ltb limit (length cands) then take limit cands else cands

-- What `ProbeVia` returns, or that the context had ended before it.
pub data Via : Type 0 where
  ended failed : Via
  answered : ℤ → Via

-- The knobs of a scan, the answers to its probes by tag and target, and the stored profile.
pub record Survey : Type 0 where
  pub targets : List Text
  pub limit : ℕ
  pub retry_after : ℕ
  pub via : Text → Text → Via
  pub stored : Option Profile

-- `scanCandidates`.
unfoldable pub scan_candidates : Survey → ℕ → LiveConfig → Profile → Text → Line → List Candidate
unfolding eligible good_first capped
scan_candidates v now c p degraded w = capped v.limit (
    good_first (good_of w.last_good p.id) degraded
      (eligible c degraded now v.retry_after w.recovery.degraded_at p.servers))

-- The probes of one candidate.
unfoldable pub measure_targets : (Text → Via) → List Text → List TargetResult
measure_targets via [] = []
measure_targets via (t ∷ ts) =
    let rest = measure_targets via ts in
    elim (via t) [
      | ended ↦ []
      | failed ↦ record { target = t; stage = stage_probe; rtt_ms = pos 0 } ∷ rest
      | answered ms ↦
          record { target = t; stage = stage_ok; rtt_ms = if le_int ms (pos 0) then pos 1 else ms }
          ∷ rest
    ]

unfoldable pub measure : (Text → Text → Via) → List Text → Candidate → NodeResult
unfolding measure_targets
measure via targets c = record {
  node_id = c.node_id;
  targets = measure_targets (via c.tag) targets;
}

-- `measureCandidates`.
unfoldable pub measure_candidates :
    (Text → Text → Via) → List Candidate → List Text → List NodeResult
measure_candidates via cands targets = map (measure via targets) cands

-- The last good node, unless it is the degraded one.
unfoldable pub other_good : Text → Text → Text
other_good degraded good = if text_eq good degraded then codes "" else good

unfoldable pub node_of : Option NodeResult → Option Text
node_of none = none
node_of (some r) = some r.node_id

unfoldable pub scan_in :
    Survey → ℕ → Text → Text → Line → Option LiveConfig → Option Profile → Option Text
unfolding node_of
scan_in v now profile_id degraded w (some c) (some p) =
    if not (text_eq c.profile_id profile_id) || (length v.targets == 0)
    then none
    else node_of (
        best (measure_candidates v.via (scan_candidates v now c p degraded w) v.targets)
          (other_good degraded (good_of w.last_good profile_id)))
scan_in v now profile_id degraded w _ _ = none

-- `scanForExit`. `Best` takes nothing where there is no candidate.
unfoldable pub scan_for_exit : Survey → ℕ → Text → Text → Line → Option Text
unfolding scan_in
scan_for_exit v now profile_id degraded w = scan_in v now profile_id degraded w w.live v.stored

-- What `allowAutoRecovery` reads.
abbrev pub session_of : Line → Session
session_of w = record {
  generation = w.generation;
  profile = w.status.profile;
  connected = is_up w.status.phase;
  auto_failover = w.auto_failover;
}

-- `allowAutoRecovery`, with the state that it leaves.
abbrev pub allow : Limits → ℕ → ℕ → Text → Text → Line → Switched
allow l now gen profile_id degraded w =
    let c = allow_auto_recovery l (session_of w) gen profile_id degraded now w.recovery in
    record { took = c.allowed; line = record w { recovery = c.recovery } }

unfoldable pub is_live : ℕ → Text → Option LiveConfig → Bool
is_live gen profile_id none = false
is_live gen profile_id (some c) = (c.generation == gen) && text_eq c.profile_id profile_id

-- `allowAutoSwitch`.
unfoldable pub allow_auto_switch : Limits → ℕ → ℕ → Text → Text → Line → Switched
unfolding is_live
allow_auto_switch l now gen profile_id degraded w =
    let c = allow l now gen profile_id degraded w in
    record { took = c.took && is_live gen profile_id c.line.live; line = c.line }

-- `autoSwitchResult`.
pub data AutoResult : Type 0 where
  reconnect moved suppressed : AutoResult

pub record Away : Type 0 where
  pub result : AutoResult
  pub line : Line

-- The moments of the steps, what others do before the lock, whether it is free, and the answers.
pub record Moment : Type 0 where
  pub checked : ℕ
  pub gated : ℕ
  pub scanned : ℕ
  pub rechecked : ℕ
  pub recorded : ℕ
  pub meanwhile : Line → Line
  pub lock_free : Bool
  pub steering : Steering
  pub stored : Option Profile
  pub protection : State
  pub survey : Survey

abbrev pub away : AutoResult → Line → Away
away r w = record { result = r; line = w }

abbrev pub note_move : ℕ → Line → Line
note_move now w = record w { recovery = record_auto_switch now w.recovery }

-- The move, under the lock.
unfoldable pub move_to : Limits → Moment → ℕ → Text → Text → Text → Line → Away
move_to l m gen profile_id degraded target w =
    let c = allow l m.rechecked gen profile_id degraded w in
    let s = switch_node m.steering m.stored m.protection profile_id target false c.line in
    if not c.took || not (text_eq c.line.status.node degraded)
    then away suppressed c.line
    else if not s.took
    then away reconnect s.line
    else away moved (note_move m.recorded s.line)

unfoldable pub after_scan : Limits → Moment → ℕ → Text → Text → Line → Option Text → Away
unfolding move_to
after_scan l m gen profile_id degraded w none = away reconnect (m.meanwhile w)
after_scan l m gen profile_id degraded w (some target) =
    let w1 = m.meanwhile w in
    if not m.lock_free then away reconnect w1 else move_to l m gen profile_id degraded target w1

-- `autoSwitchAway`.
unfoldable pub auto_switch_away : Limits → Moment → ℕ → Text → Text → Line → Away
unfolding allow_auto_switch after_scan
auto_switch_away l m gen profile_id degraded w =
    let c = allow l m.checked gen profile_id degraded w in
    let g = allow_auto_switch l m.gated gen profile_id degraded c.line in
    if not c.took
    then away suppressed c.line
    else if not g.took
    then away reconnect g.line
    else after_scan l m gen profile_id degraded g.line
        (scan_for_exit m.survey m.scanned profile_id degraded g.line)
