-- ===== src/Control/Switch/Scan/Moved.antt =====
-- What the daemon does to the tunnel when it moves away from a degraded exit on its own, as in
-- `autoSwitchAway` of core/control/hotswitch.go.
use tenebra.Prelude.{
  ℕ, true, false, not, ◌||◌, if-ind, not-false, Option, none, some, Text, text_eq, ◌≡◌, refl, inl,
  inr,
}
use tenebra.Control.Recovery.{Limits}
use tenebra.Control.Switch.{Line, confirm_switch, switch_node, Switched}
use tenebra.Control.Switch.Kept.{Names, IsHonest, Kept, switch_node-Kept}
use tenebra.Control.Switch.Scan.{
  scan_for_exit, allow, allow_auto_switch, AutoResult, reconnect, moved, suppressed, Away, away,
  Moment, note_move, move_to, after_scan, auto_switch_away,
}
use tenebra.Control.Switch.Scan.Exit.{IsExit, scan_for_exit-IsExit}

-- The line that the scan reads, behind the two checks.
abbrev pub gated : Limits → Moment → ℕ → Text → Text → Line → Line
gated l m gen profile_id degraded w =
    (allow_auto_switch l m.gated gen profile_id degraded
      (allow l m.checked gen profile_id degraded w).line).line

-- A move that took.
pub record Took (l : Limits) (m : Moment) (gen : ℕ) (profile_id degraded : Text) (w : Line)
    (r : Line) : Type 0 where
  pub target : Text
  pub exit : IsExit m.survey m.scanned degraded (gated l m gen profile_id degraded w) target
  pub carries : confirm_switch m.steering.probes ≡ true
  pub node : r.status.node ≡ target

-- The tunnel and the state agree, and a move that is reported took.
abbrev pub Settled : Limits → Moment → ℕ → Text → Text → Line → Away → Type 0
Settled l m gen profile_id degraded w r =
    Names r.line × (r.result ≡ moved → Took l m gen profile_id degraded w r.line)

module _ (l : Limits) (m : Moment) (gen : ℕ) (p d : Text) where
  allow-Names : (now : ℕ) (w : Line) → Names w → Names (allow l now gen p d w).line
  allow-Names now w n = record { config = n.config; live = n.live; tag = n.tag; named = n.named }

  allow_auto_switch-Names :
      (now : ℕ) (w : Line) → Names w → Names (allow_auto_switch l now gen p d w).line
  unfolding allow_auto_switch
  allow_auto_switch-Names now w n = allow-Names now w n

  -- A result that is no move is settled where the state names the exit.
  unmoved :
      (w r : Line) (o : AutoResult) → Names r → (o ≡ moved → ⊥) → Settled l m gen p d w (away o r)
  unmoved w r o n h = (n, λ e. absurd (h e))

  Kept-Names :
      (id : Text) (w : Line) (r : Switched) → Names w → Kept m.steering p id w r → Names r.line
  Kept-Names id w r n (inl k) = k.5
  Kept-Names id w r n (inr k) = rw k.1 n

  Kept-Took :
      (w w1 : Line) (id : Text) (r : Switched)
      → IsExit m.survey m.scanned d (gated l m gen p d w) id
      → r.took ≡ true
      → Kept m.steering p id w1 r
      → Took l m gen p d w (note_move m.recorded r.line)
  Kept-Took w w1 id r x t (inl k) = record { target = id; exit = x; carries = k.1; node = k.4 }
  Kept-Took w w1 id r x t (inr k) = cc

  move_to-Settled :
      (w w1 : Line) (target : Text)
      → Names w1
      → IsHonest m.steering
      → IsExit m.survey m.scanned d (gated l m gen p d w) target
      → Settled l m gen p d w (move_to l m gen p d target w1)
  unfolding move_to
  move_to-Settled w w1 target n h x =
      let c = allow l m.rechecked gen p d w1 in
      let nc = allow-Names m.rechecked w1 n in
      let s = switch_node m.steering m.stored m.protection p target false c.line in
      let kept = switch_node-Kept m.steering m.stored m.protection p target false c.line nc h in
      let ns = Kept-Names target c.line s nc kept in
      let P = λ (r : Away). Settled l m gen p d w r in
      if-ind P (not c.took || not (text_eq c.line.status.node d)) _ _
        (λ e. unmoved w c.line suppressed nc (λ q. cc))
        (λ e.
          if-ind P (not s.took) _ _ (λ e1. unmoved w s.line reconnect ns (λ q. cc))
            (λ e1. (
              record { config = ns.config; live = ns.live; tag = ns.tag; named = ns.named },
              λ q. Kept-Took w c.line target s x (not-false s.took e1) kept,
            )))

  after_scan-Settled :
      (w w1 : Line) (o : Option Text)
      → Names w1
      → Names (m.meanwhile w1)
      → IsHonest m.steering
      → ((target : Text)
          → o ≡ some target
          → IsExit m.survey m.scanned d (gated l m gen p d w) target)
      → Settled l m gen p d w (after_scan l m gen p d w1 o)
  unfolding after_scan
  after_scan-Settled w w1 none n k h x = unmoved w (m.meanwhile w1) reconnect k (λ q. cc)
  after_scan-Settled w w1 (some target) n k h x =
      if-ind (λ (r : Away). Settled l m gen p d w r) (not m.lock_free) _ _
        (λ e. unmoved w (m.meanwhile w1) reconnect k (λ q. cc))
        (λ e. move_to-Settled w (m.meanwhile w1) target k h (x target refl))

-- Where the state names the exit that the selector is on, others keep it so, and the process answers
-- as `IsHonest` says, the state names the exit that the selector is on after `autoSwitchAway`,
-- whatever comes of it. If it reports a move, the state names the exit that the scan has found, and
-- a probe has gone through the tunnel since.
pub auto_switch_away-Settled :
    (l : Limits) (m : Moment) (gen : ℕ) (p d : Text) (w : Line)
    → Names w
    → ((x : Line) → Names x → Names (m.meanwhile x))
    → IsHonest m.steering
    → Settled l m gen p d w (auto_switch_away l m gen p d w)
unfolding auto_switch_away
auto_switch_away-Settled l m gen p d w n keeps h =
    let c = allow l m.checked gen p d w in
    let nc = allow-Names l m gen p d m.checked w n in
    let g = allow_auto_switch l m.gated gen p d c.line in
    let ng = allow_auto_switch-Names l m gen p d m.gated c.line nc in
    let P = λ (r : Away). Settled l m gen p d w r in
    if-ind P (not c.took) _ _ (λ e. unmoved l m gen p d w c.line suppressed nc (λ q. cc))
      (λ e.
        if-ind P (not g.took) _ _ (λ e1. unmoved l m gen p d w g.line reconnect ng (λ q. cc))
          (λ e1.
            after_scan-Settled l m gen p d w g.line (scan_for_exit m.survey m.scanned p d g.line) ng
              (keeps g.line ng) h (scan_for_exit-IsExit m.survey m.scanned p d g.line)))
