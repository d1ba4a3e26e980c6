-- ===== src/Control/Walk/Connects.antt =====
-- When `runFallback` of core/control/connect.go ends connected.
use tenebra.Prelude.{
  ℕ, zero, suc, ◌+◌, ◌≤◌, ◌<◌, false, Bool-cases, none, some, List, [], ◌∷◌, get_elem?, ap, Text,
  ◌≡◌, ◌⊎◌, inl, inr, refl, sym, ◌∙◌, arith, ◌==◌, ==_iff,
}
use tenebra.Protection.Guard.{Backend}
use tenebra.Fallback.LastGood.{LastGood}
use tenebra.Fallback.Machine.{Attempt, Machine, next}
use tenebra.Fallback.Strategy.{default_strategies}
use tenebra.Control.Tracker.{pending, mark_trying, new_attempt_tracker}
use tenebra.Control.State.{Env, Plan, Walk, NodeOutcome, tick, publish, track}
use tenebra.Control.State.Same.{publish-Same, track-Same}
use tenebra.Control.Success.Steady.{IsSteady, IsIdle, not_gone}
use tenebra.Control.Cascade.{attempt_node}
use tenebra.Control.Cascade.Steady.{
  IsWorking, IsSettled, try_strategies-IsSettled, attempt_node_working,
}
use tenebra.Control.Walk.{ended_connected, Ended, ended, turn, take_turn, run_loop, run_fallback}
use tenebra.Control.Walk.Ends.{Moved, take_turn-Turned, found_at, failed_step}

get_below :
    (xs : List Attempt) (c i : ℕ) (a : Attempt)
    → c ≤ i
    → get_elem? xs i ≡ some a
    → (x : Attempt) × (get_elem? xs c ≡ some x)
get_below [] c i a h e = cc
get_below (x ∷ xs) zero i a h e = (x, refl)
get_below (x ∷ xs) (suc c) (suc i) a h e = get_below xs c i a (omega arith) e
get_below (x ∷ xs) (suc c) zero a h e = absurd (omega arith)

module _ {S H : Type 0} ⦃lg : LastGood S⦄ (b : Backend H) (env : Env) (plan : Plan)
    (steady : IsSteady env plan) where
  settled_turn :
      (a : Attempt) (w : Walk S H) (o : NodeOutcome) (reason : Text)
      → IsSettled o
      → ((turn b env plan a o reason w).1 ≡ none)
        ⊎ ((turn b env plan a o reason w).1 ≡ some ended_connected)
  unfolding turn
  settled_turn a w o reason (inl e) = rw e (inr refl)
  settled_turn a w o reason (inr e) = rw e (inl refl)

  -- An undisturbed turn goes on or ends connected; it ends connected at a working node.
  steady_turn :
      (a : Attempt) (w : Walk S H)
      → w.running ≡ false
      → IsIdle w.guard
      → ((take_turn b env plan a w).1 ≡ none)
        ⊎ ((take_turn b env plan a w).1 ≡ some ended_connected)
  unfolding take_turn attempt_node
  steady_turn a w off idle =
      let v = track env a.node_id mark_trying pending w in
      let (same, run) = track-Same env a.node_id mark_trying pending w in
      let r = attempt_node b env plan a v in
      settled_turn a r.walk r.outcome r.reason (
        try_strategies-IsSettled b env plan steady a default_strategies false v (run ∙ off)
          (rw same.guard idle))

  working_turn :
      (a : Attempt) (w : Walk S H)
      → IsIdle w.guard
      → IsWorking env plan a
      → (take_turn b env plan a w).1 ≡ some ended_connected
  unfolding take_turn turn
  working_turn a w idle works =
      let v = track env a.node_id mark_trying pending w in
      let same = (track-Same env a.node_id mark_trying pending w).0 in
      rw (attempt_node_working b env plan steady a v (rw same.guard idle) works)

  same_attempt :
      (w : Walk S H) (x a : Attempt) (i : ℕ)
      → get_elem? w.machine.order w.machine.cursor ≡ some x
      → get_elem? w.machine.order i ≡ some a
      → w.machine.cursor ≡ i
      → x ≡ a
  same_attempt w x a i e e' same = cc (e, rw (sym same) at e')

  run_loop_connects :
      (fuel : ℕ) (w0 w : Walk S H) (i : ℕ) (a : Attempt)
      → Moved b env plan w0 w
      → IsIdle w0.guard
      → w.machine.cursor ≤ i
      → get_elem? w.machine.order i ≡ some a
      → IsWorking env plan a
      → i < w.machine.cursor + fuel
      → (r : Ended S H) × (run_loop b env plan fuel w ≡ some r) × (r.end ≡ ended_connected)
  unfolding run_loop next
  run_loop_connects zero w0 w i a m idle c e works h = absurd (omega arith)
  run_loop_connects (suc fuel) w0 w i a m idle c e works h =
      let (x, at_cursor) = get_below w.machine.order w.machine.cursor i a c e in
      let t = take_turn b env plan x (tick w) in
      let here = not_gone b env plan steady w in
      elim (steady_turn x (tick w) m.running (rw m.guard idle)) [
        | inr up ↦ (ended ended_connected t.0, rw (here, run_loop) (rw at_cursor (rw up)), refl)
        | inl on ↦ elim (Bool-cases (w.machine.cursor == i)) [
          | inl same ↦
              let works' : IsWorking env plan x =
                rw (same_attempt w x a i at_cursor e ((==_iff w.machine.cursor i).0 same)) works in
              absurd (cc (on, working_turn x (tick w) (rw m.guard idle) works'))
          | inr other ↦
              let (off, machine, status, guard, host) =
                rw on at (take_turn-Turned b env plan x (tick w) m.running) in
              let found = found_at w.machine.order w.machine.cursor x at_cursor in
              let (order, cursor) = failed_step b env plan w.machine x found.1 in
              let (r, run, end) =
                run_loop_connects fuel w0 t.0 i a
                  (record {
                    running = off;
                    order = rw machine (order ∙ m.order);
                    status = status ∙ m.status;
                    guard = guard ∙ m.guard;
                    host = host ∙ m.host;
                  })
                  idle (rw machine (rw cursor (ground arith))) (rw machine (rw order e)) works
                  (rw machine (rw cursor (omega (arith, h)))) in
              (r, rw (here, run_loop) (rw at_cursor (rw on run)), end)
        ]
      ]

  -- If one of the candidates left works, no other connection takes the walk's place, no start fails
  -- on this machine, and neither the host protection nor the system proxy is asked for, then the
  -- walk ends connected, whatever the candidates in front of that one do.
  pub run_fallback_connects :
      (fuel : ℕ) (w : Walk S H) (i : ℕ) (a : Attempt)
      → w.running ≡ false
      → IsIdle w.guard
      → w.machine.cursor ≤ i
      → get_elem? w.machine.order i ≡ some a
      → IsWorking env plan a
      → i < w.machine.cursor + fuel
      → (r : Ended S H) × (run_fallback b env plan fuel w ≡ some r) × (r.end ≡ ended_connected)
  unfolding run_fallback
  run_fallback_connects fuel w i a off idle c e works h =
      let v = record w { items = new_attempt_tracker w.machine } in
      let (s, run) = publish-Same env pending v in
      run_loop_connects fuel w (publish env pending v) i a
        (record {
          running = run ∙ off;
          order = ap (λ (m : Machine S). m.order) s.machine;
          status = s.status;
          guard = s.guard;
          host = s.host;
        })
        idle (rw s.machine c) (rw s.machine e) works (rw s.machine h)
