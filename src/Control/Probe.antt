-- ===== src/Control/Probe.antt =====
-- `probeUntilUp` of core/control/connect.go. What happens around the loop is a list of rounds: what
-- each call and each `select` of one round finds. The list ends where the budget does; time itself
-- is not modelled.
pub mod Measured
use tenebra.Prelude.{
  ℕ, Bool, true, false, not, ◌&&◌, ◌||◌, List, [], ◌∷◌, ◌*◌, ◌/◌, leb, if◌then◌else◌,
}

-- Which case a `select` takes.
pub data Wait : Type 0 where
  budget_over exited retry : Wait

-- A call of `Probe` through the selector: an answer, or an error after an elapsed time.
pub data Answer : Type 0 where
  answered : Answer
  no_answer : ℕ → Answer

pub record Round : Type 0 where
  pub current : Bool
  pub exited : Bool
  -- Whether `Select` succeeds, where it is called, and the wait after a failed call.
  pub selected : Bool
  pub select_wait : Wait
  pub answer : Answer
  -- `isCurrent` after an answer, and the wait after an error.
  pub still_current : Bool
  pub probe_wait : Wait

-- What `probeUntilUp` returns.
pub record Probed : Type 0 where
  pub up : Bool
  pub stalled : Bool

abbrev pub probed : Bool → Bool → Probed
probed up stalled = record { up = up; stalled = stalled }

-- `probeStallThreshold`.
unfoldable pub stall_threshold : ℕ → ℕ
stall_threshold timeout = timeout * 3 / 4

-- How a round goes on: with the loop's `pinned` and `stalled`, or with a result.
pub data Next : Type 0 where
  again : Bool → Bool → Next
  stop : Probed → Next

after_select : Wait → Bool → Next
after_select retry stalled = again false stalled
after_select _ stalled = stop (probed false false)

after_probe : Wait → Bool → Next
after_probe retry stalled = again true stalled
after_probe _ stalled = stop (probed false stalled)

measured : ℕ → Round → Answer → Next
unfolding after_probe stall_threshold
measured timeout r answered = stop (probed r.still_current false)
measured timeout r (no_answer elapsed) =
    after_probe r.probe_wait (leb (stall_threshold timeout) elapsed)

-- One round of the loop.
unfoldable pub probe_round : ℕ → Round → Bool → Bool → Next
unfolding after_select measured
probe_round timeout r pinned stalled =
    if not r.current || r.exited
    then stop (probed false stalled)
    else if not (pinned || r.selected)
    then after_select r.select_wait stalled
    else measured timeout r r.answer

-- The loop.
unfoldable pub probe_loop : ℕ → List Round → Bool → Bool → Probed
probe_loop timeout [] pinned stalled = probed false stalled
probe_loop timeout (r ∷ rs) pinned stalled = elim (probe_round timeout r pinned stalled) [
  | again pinned' stalled' ↦ probe_loop timeout rs pinned' stalled'
  | stop p ↦ p
]

-- `probeUntilUp`: the flags say that the warm-up ended in time, and that no tag is wanted.
unfoldable pub probe_until_up : ℕ → Bool → Bool → List Round → Probed
probe_until_up timeout warm untagged rounds =
    if warm then probe_loop timeout rounds untagged false else probed false false
