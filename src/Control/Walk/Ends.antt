-- ===== src/Control/Walk/Ends.antt =====
-- How `runFallback` of core/control/connect.go ends.
use tenebra.Prelude.{
  ℕ, zero, suc, ◌+◌, ◌≤◌, ◌<◌, true, false, Bool-cases, Option-cases, Option, none, some, List, [],
  ◌∷◌, length, get_elem?, ap, In, Text, ◌≡◌, ◌⊎◌, inl, inr, refl, ◌∙◌, arith,
}
use tenebra.Protection.Guard.{Backend}
use tenebra.Fallback.LastGood.{LastGood}
use tenebra.Fallback.Machine.{Attempt, Machine, next, failure}
use tenebra.Fallback.Strategy.{default_strategies}
use tenebra.Control.Tracker.{pending, exhausted, mark_trying, mark_blocked, new_attempt_tracker}
use tenebra.Control.State.{
  Env, Plan, failed, all_failed, Walk, NodeOutcome, node_connected, node_superseded, node_failed,
  node_local_failure, tick, stop, set_state, gone, publish, track,
}
use tenebra.Control.State.Same.{track-Same, publish-Same}
use tenebra.Control.Success.Recorded.{IsConnected}
use tenebra.Control.Cascade.{attempt_node}
use tenebra.Control.Cascade.Fits.{
  Leaves, Leaves-Same, IsConnected-guard, Kept, Refused, try_strategies-Leaves,
}
use tenebra.Control.Walk.{
  End, ended_connected, ended_superseded, ended_local, ended_exhausted, Ended, ended, exhaust,
  move_on, turn, take_turn, run_loop, run_fallback,
}

module _ {A : Type 0} where
  pub found_at : (xs : List A) (i : ℕ) (a : A) → get_elem? xs i ≡ some a → In a xs × (i < length xs)
  found_at [] i a e = cc
  found_at (x ∷ xs) zero a e = (inl (cc), omega arith)
  found_at (x ∷ xs) (suc i) a e = let r = found_at xs i a e in (inr r.0, omega (arith, r.1))

  past_end : (xs : List A) (i : ℕ) → get_elem? xs i ≡ none → length xs ≤ i
  past_end [] i e = omega arith
  past_end (x ∷ xs) zero e = cc
  past_end (x ∷ xs) (suc i) e = omega (arith, past_end xs i e)

module _ {S H : Type 0} ⦃lg : LastGood S⦄ (b : Backend H) (env : Env) (plan : Plan) where
  -- What is left of a walk by how it ends. A connected walk runs a process and is published as
  -- connected to one of its candidates. Any other has stopped its process. A superseded one leaves
  -- the state alone, and an exhausted one has gone through all candidates.
  abbrev pub Leftover : Walk S H → End → Walk S H → Type 0
  Leftover w ended_connected w' =
      (w'.running ≡ true) × ((a : Attempt) × In a w.machine.order × IsConnected b env plan a w w')
  Leftover w ended_superseded w' = (w'.running ≡ false) × (w'.status ≡ w.status)
  Leftover w ended_local w' = Refused w w'
  Leftover w ended_exhausted w' =
      (w'.running ≡ false)
      × (length w'.machine.order ≤ w'.machine.cursor)
      × ((w'.status ≡ w.status)
          ⊎ ((w'.status.phase ≡ failed) × (w'.status.problem ≡ some all_failed)))

  -- A walk in which only the cursor moved.
  pub record Moved (w w' : Walk S H) : Type 0 where
    pub running : w'.running ≡ false
    pub order : w'.machine.order ≡ w.machine.order
    pub status : w'.status ≡ w.status
    pub guard : w'.guard ≡ w.guard
    pub host : w'.host ≡ w.host

  exhaust_lem :
      (w : Walk S H)
      → w.running ≡ false
      → length w.machine.order ≤ w.machine.cursor
      → Leftover w ended_exhausted (exhaust b env plan w)
  unfolding exhaust set_state
  exhaust_lem w off all =
      let (s, r) = publish-Same env exhausted (tick w) in
      elim (Bool-cases (env.current w.clock)) [
        | inl t ↦ rw t (r ∙ off, rw s.machine all, inr (refl, refl))
        | inr f ↦ rw f (off, all, inl refl)
      ]

  -- A turn that ends the walk, and one that goes on to the next candidate.
  abbrev pub Turned : Attempt → Walk S H → Walk S H → Option End → Type 0
  Turned a w w' (some ended_connected) = (w'.running ≡ true) × IsConnected b env plan a w w'
  Turned a w w' (some ended_superseded) = Kept w w'
  Turned a w w' (some ended_local) = Refused w w'
  Turned a w w' (some ended_exhausted) = ⊥
  Turned a w w' none =
      (w'.running ≡ false)
      × (w'.machine ≡ failure w.machine a)
      × (w'.status ≡ w.status)
      × (w'.guard ≡ w.guard)
      × (w'.host ≡ w.host)

  move_on_lem :
      (a : Attempt) (reason : Text) (w w' : Walk S H)
      → Kept w w'
      → Turned a w (move_on b env plan a reason w') none
  unfolding move_on
  move_on_lem a reason w w' (off, s) =
      let (same, run) = track-Same env a.node_id (mark_blocked reason) pending w' in
      (
        run ∙ off,
        rw (same.machine, s.machine),
        same.status ∙ s.status,
        same.guard ∙ s.guard,
        same.host ∙ s.host,
      )

  turn-Turned :
      (a : Attempt) (w w' : Walk S H) (o : NodeOutcome) (reason : Text)
      → Leaves b env plan a w o w'
      → Turned a w (turn b env plan a o reason w').0 (turn b env plan a o reason w').1
  unfolding turn
  turn-Turned a w w' node_connected reason l = l
  turn-Turned a w w' node_superseded reason l = l
  turn-Turned a w w' node_local_failure reason l = l
  turn-Turned a w w' node_failed reason l = move_on_lem a reason w w' l

  pub take_turn-Turned :
      (a : Attempt) (w : Walk S H)
      → w.running ≡ false
      → Turned a w (take_turn b env plan a w).0 (take_turn b env plan a w).1
  unfolding take_turn attempt_node
  take_turn-Turned a w off =
      let v = track env a.node_id mark_trying pending w in
      let (same, run) = track-Same env a.node_id mark_trying pending w in
      let r = attempt_node b env plan a v in
      turn-Turned a w r.walk r.outcome r.reason (
        Leaves-Same b env plan a w v r.outcome r.walk same
          (try_strategies-Leaves b env plan a default_strategies false v (run ∙ off)))

  pub failed_step :
      (m : Machine S) (a : Attempt)
      → m.cursor < length m.order
      → ((failure m a).order ≡ m.order) × ((failure m a).cursor ≡ m.cursor + 1)
  unfolding failure
  failed_step m a h = (ground arith, ground arith)

  -- What a turn leaves is what its end says, seen from where the walk began.
  ended_turn :
      (w0 w w' : Walk S H) (a : Attempt) (e : End)
      → Moved w0 w
      → In a w.machine.order
      → Turned a w w' (some e)
      → Leftover w0 e w'
  ended_turn w0 w w' a ended_connected m i t =
      (t.0, (a, rw m.order at i, IsConnected-guard b env plan a w0 w w' m.guard m.host t.1))
  ended_turn w0 w w' a ended_superseded m i t = (t.0, t.1.status ∙ m.status)
  ended_turn w0 w w' a ended_local m i (off, inl e) = (off, inl (e ∙ m.status))
  ended_turn w0 w w' a ended_local m i (off, inr e) = (off, inr e)
  ended_turn w0 w w' a ended_exhausted m i t = absurd t

  pub ticked : (w0 w : Walk S H) → Moved w0 w → Moved w0 (tick w)
  ticked w0 w m = record {
    running = m.running;
    order = m.order;
    status = m.status;
    guard = m.guard;
    host = m.host;
  }

  exhausted_from :
      (w0 w w' : Walk S H)
      → w.status ≡ w0.status
      → Leftover w ended_exhausted w'
      → Leftover w0 ended_exhausted w'
  exhausted_from w0 w w' e (off, all, inl s) = (off, all, inl (s ∙ e))
  exhausted_from w0 w w' e (off, all, inr s) = (off, all, inr s)

  run_loop-Leftover :
      (fuel : ℕ) (w0 w : Walk S H)
      → Moved w0 w
      → 0 < fuel
      → length w.machine.order < w.machine.cursor + fuel
      → (r : Ended S H) × (run_loop b env plan fuel w ≡ some r) × Leftover w0 r.end r.walk
  unfolding run_loop
  run_loop-Leftover zero w0 w m p h = absurd (omega arith)
  run_loop-Leftover (suc fuel) w0 w m p h = elim (Bool-cases (gone env w)) [
    | inl t ↦ (ended ended_superseded (stop (tick w)), rw (t, run_loop), (refl, m.status))
    | inr f ↦ elim (Option-cases (next w.machine)) [
      | inl e ↦ (
        ended ended_exhausted (exhaust b env plan (tick w)),
        rw (f, run_loop) (rw e),
        exhausted_from w0 (tick w) (exhaust b env plan (tick w)) m.status (
            exhaust_lem (tick w) m.running
              (past_end w.machine.order w.machine.cursor (unfold next in e))),
      )
      | inr (a, e) ↦
          let t = take_turn b env plan a (tick w) in
          let turned = take_turn-Turned a (tick w) m.running in
          let found = found_at w.machine.order w.machine.cursor a (unfold next in e) in
          elim (Option-cases t.1) [
            | inr (end, e') ↦ (
              ended end t.0,
              rw (f, run_loop) (rw e (rw e')),
              ended_turn w0 (tick w) t.0 a end (ticked w0 w m) found.0 (rw e' at turned),
            )
            | inl e' ↦
                let (off, machine, status, guard, host) = rw e' at turned in
                let (order, cursor) = failed_step w.machine a found.1 in
                let (r, run, left) =
                  run_loop-Leftover fuel w0 t.0
                    (record {
                      running = off;
                      order = rw machine (order ∙ m.order);
                      status = status ∙ m.status;
                      guard = guard ∙ m.guard;
                      host = host ∙ m.host;
                    })
                    (omega (arith, found.1, h))
                    (rw machine (rw (order, cursor) (omega (arith, h)))) in
                (r, rw (f, run_loop) (rw e (rw e' run)), left)
          ]
    ]
  ]

  -- With more fuel than there are candidates left, the walk ends. Connected, it runs a process, it
  -- is published as connected to one of its candidates, and the host protection was activated
  -- without an error. Otherwise the process is stopped: superseded, the walk leaves the state
  -- alone; after a failure of the local set-up it leaves it alone or in an error; and exhausted, it
  -- has gone through every candidate, and leaves the state alone or in the error that says so.
  pub run_fallback-Leftover :
      (fuel : ℕ) (w : Walk S H)
      → w.running ≡ false
      → 0 < fuel
      → length w.machine.order < w.machine.cursor + fuel
      → (r : Ended S H) × (run_fallback b env plan fuel w ≡ some r) × Leftover w r.end r.walk
  unfolding run_fallback
  run_fallback-Leftover fuel w off p h =
      let v = record w { items = new_attempt_tracker w.machine } in
      let (s, run) = publish-Same env pending v in
      run_loop-Leftover fuel w (publish env pending v)
        (record {
          running = run ∙ off;
          order = ap (λ (m : Machine S). m.order) s.machine;
          status = s.status;
          guard = s.guard;
          host = s.host;
        })
        p (rw s.machine h)
