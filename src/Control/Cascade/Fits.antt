-- ===== src/Control/Cascade/Fits.antt =====
-- What one node's attempt in core/control/connect.go leaves of the walk, for each outcome.
use tenebra.Prelude.{
  ℕ, ◌+◌, Bool, true, false, Bool-cases, Option, none, some, List, [], ◌∷◌, Text, codes, ◌≡◌, ◌⊎◌,
  inl, inr, refl, ◌∙◌,
}
use tenebra.Protection.Guard.{Backend, interrupted}
use tenebra.Fallback.LastGood.{LastGood}
use tenebra.Fallback.Machine.{Attempt}
use tenebra.Fallback.Strategy.{Strategy}
use tenebra.Fallback.Classify.{classify_attempt_failure}
use tenebra.Control.Tracker.{Item, Outcome, pending, mark_blocked, mark_escalating}
use tenebra.Control.Probe.{Probed}
use tenebra.Control.State.{
  Start, started, refused, Env, Built, Plan, failed, Problem, Walk, NodeOutcome, node_connected,
  node_superseded, node_failed, node_local_failure, tick, stop, set_state, gone, track, Done,
}
use tenebra.Control.State.Same.{Same, Same_refl, Same_trans, track-Same}
use tenebra.Control.Success.{record_success}
use tenebra.Control.Success.Recorded.{activation, IsConnected, Recorded, record_success-Recorded}
use tenebra.Control.Cascade.{
  Verdict, over, gave_up, escalate, Tried, after_record, after_stall, after_probe, after_start,
  after_build, try_strategy, try_strategies, first, is_censored,
}

module _ {S H : Type 0} where
  -- The process is stopped, and the rest of the walk as it was.
  abbrev pub Kept : Walk S H → Walk S H → Type 0
  Kept w w' = (w'.running ≡ false) × Same w w'

  -- The process is stopped, and the state as it was or an error.
  abbrev pub Refused : Walk S H → Walk S H → Type 0
  Refused w w' = (w'.running ≡ false) × ((w'.status ≡ w.status) ⊎ (w'.status.phase ≡ failed))

  later : (w v : Walk S H) → Same w v → Same w (tick v)
  later w v s = record { machine = s.machine; status = s.status; guard = s.guard; host = s.host }

  stopped : (w v : Walk S H) → Same w v → Same w (stop (tick v))
  stopped w v s = record { machine = s.machine; status = s.status; guard = s.guard; host = s.host }

  tracked :
      (env : Env) (id : Text) (f : Item → Item) (o : Outcome) (w v : Walk S H)
      → v.running ≡ false
      → Same w v
      → Kept w (track env id f o v)
  tracked env id f o w v r s =
      let (same, run) = track-Same env id f o v in (run ∙ r, Same_trans w v _ s same)

pub verdict_cases :
    (v : Verdict)
    → ((o : NodeOutcome) × (reason : Text) × (v ≡ over o reason)) ⊎ ((v ≡ gave_up) ⊎ (v ≡ escalate))
verdict_cases (over o reason) = inl (o, reason, refl)
verdict_cases gave_up = inr (inl refl)
verdict_cases escalate = inr (inr refl)

module _ {S H : Type 0} ⦃lg : LastGood S⦄ (b : Backend H) (env : Env) (plan : Plan) where
  -- What each outcome leaves of a walk.
  abbrev pub Leaves : Attempt → Walk S H → NodeOutcome → Walk S H → Type 0
  Leaves a w node_connected w' = (w'.running ≡ true) × IsConnected b env plan a w w'
  Leaves a w node_superseded w' = Kept w w'
  Leaves a w node_failed w' = Kept w w'
  Leaves a w node_local_failure w' = Refused w w'

  abbrev Fits : Attempt → Walk S H → Tried S H → Type 0
  Fits a w t = elim t.verdict [
    | over o reason ↦ Leaves a w o t.walk
    | gave_up ↦ Kept w t.walk
    | escalate ↦ Kept w t.walk
  ]

  same_activation :
      (w v : Walk S H)
      → v.guard ≡ w.guard
      → v.host ≡ w.host
      → (t : ℕ) → activation b env plan t v ≡ activation b env plan t w
  same_activation w v g h t = rw (g, h)

  pub IsConnected-guard :
      (a : Attempt) (w v w' : Walk S H)
      → v.guard ≡ w.guard
      → v.host ≡ w.host
      → IsConnected b env plan a v w'
      → IsConnected b env plan a w w'
  IsConnected-guard a w v w' g h c = record {
    phase = c.phase;
    node = c.node;
    profile = c.profile;
    problem = c.problem;
    reported = c.reported;
    moment = c.moment;
    activated = rw (same_activation w v g h c.moment) at c.activated;
    guard = rw (same_activation w v g h c.moment) at c.guard;
    host = rw (same_activation w v g h c.moment) at c.host;
  }

  reported_failure :
      (a : Attempt) (w v : Walk S H) (p : Problem)
      → v.status ≡ w.status
      → Fits a w (after_record b env plan a v (some p))
  unfolding after_record set_state
  reported_failure a w v p st =
      let w1 = tick (record v { running = false; guard = interrupted v.guard }) in
      let (same, run) =
        track-Same env a.node_id (mark_blocked (codes "local setup failed")) pending w1 in
      elim (Bool-cases (env.current v.clock)) [
        | inl t ↦ rw t (run, inr refl)
        | inr f ↦ rw f (refl, inl st)
      ]

  after_record-Fits :
      (a : Attempt) (w v : Walk S H) (d : Done S H)
      → v.running ≡ true
      → Same w v
      → Recorded b env plan a v d
      → Fits a w (after_record b env plan a d.walk d.problem)
  unfolding after_record set_state
  after_record-Fits a w v d on same (run, inl (e, c)) =
      rw e (run ∙ on, IsConnected-guard a w v d.walk same.guard same.host c)
  after_record-Fits a w v d on same (run, inr ((p, e), st)) =
      rw e (reported_failure a w d.walk p (st ∙ same.status))

  after_stall-Fits :
      (a : Attempt) (w v : Walk S H) (next : Option Strategy) (stalled : Bool)
      → v.running ≡ false
      → Same w v
      → Fits a w (after_stall b env plan a next stalled v)
  unfolding after_stall
  after_stall-Fits a w v none stalled off same = (off, same)
  after_stall-Fits a w v (some next) stalled off same =
      elim (Bool-cases (is_censored (classify_attempt_failure (env.dial v.clock) a.node stalled))) [
        | inl t ↦
            rw t
              (tracked env a.node_id (mark_escalating next) pending w (tick v) off (later w v same))
        | inr f ↦ rw f (off, later w v same)
      ]

  after_probe-Fits :
      (a : Attempt) (strat : Strategy) (next : Option Strategy) (sel : Built) (w v : Walk S H)
      (p : Probed)
      → v.running ≡ true
      → Same w v
      → Fits a w (after_probe b env plan a strat next sel v p)
  unfolding after_probe
  after_probe-Fits a strat next sel w v p on same = elim (Bool-cases p.up) [
    | inl u ↦ rw u (
        after_record-Fits a w v (record_success b env plan a strat sel v) on same
          (record_success-Recorded b env plan a strat sel v))
    | inr d ↦ elim (Bool-cases (env.current v.clock)) [
      | inl t ↦
          rw (d, t) (after_stall-Fits a w (stop (tick v)) next p.stalled refl (stopped w v same))
      | inr f ↦ rw (d, f) (refl, stopped w v same)
    ]
  ]

  after_start-Fits :
      (a : Attempt) (strat : Strategy) (next : Option Strategy) (sel : Built) (w v : Walk S H)
      (s : Start)
      → v.running ≡ false
      → Same w v
      → Fits a w (after_start b env plan a strat next sel v s)
  unfolding after_start set_state
  after_start-Fits a strat next sel w v started off same =
      after_probe-Fits a strat next sel w (record v { clock = v.clock + 1; running = true }) _ refl
        (record {
          machine = same.machine;
          status = same.status;
          guard = same.guard;
          host = same.host;
        })
  after_start-Fits a strat next sel w v (refused is_local e) off same =
      let (s, r) =
        track-Same env a.node_id (mark_blocked (codes "local setup failed")) pending
          (stop (tick v)) in
      elim (Bool-cases (env.current v.clock)) [
        | inl t ↦ elim (Bool-cases is_local) [
          | inl l ↦ rw (t, l) (r, inr refl)
          | inr n ↦ rw (t, n) (off, later w v same)
        ]
        | inr f ↦ rw f (refl, stopped w v same)
      ]

  after_build-Fits :
      (a : Attempt) (strat : Strategy) (next : Option Strategy) (w v : Walk S H)
      (built : Option Built)
      → v.running ≡ false
      → Same w v
      → Fits a w (after_build b env plan a strat next v built)
  unfolding after_build
  after_build-Fits a strat next w v none off same = (off, same)
  after_build-Fits a strat next w v (some sel) off same =
      after_start-Fits a strat next sel w (tick v) _ off (later w v same)

  pub try_strategy-Fits :
      (a : Attempt) (strat : Strategy) (next : Option Strategy) (w : Walk S H)
      → w.running ≡ false
      → Fits a w (try_strategy b env plan a strat next w)
  unfolding try_strategy
  try_strategy-Fits a strat next w off = elim (Bool-cases (gone env w)) [
    | inl t ↦ rw t (refl, stopped w w (Same_refl w))
    | inr f ↦ rw f (after_build-Fits a strat next w (tick w) _ off (later w w (Same_refl w)))
  ]

  pub Leaves-Same :
      (a : Attempt) (w v : Walk S H) (o : NodeOutcome) (w' : Walk S H)
      → Same w v
      → Leaves a v o w'
      → Leaves a w o w'
  Leaves-Same a w v node_connected w' s l = (l.0, IsConnected-guard a w v w' s.guard s.host l.1)
  Leaves-Same a w v node_superseded w' s l = (l.0, Same_trans w v w' s l.1)
  Leaves-Same a w v node_failed w' s l = (l.0, Same_trans w v w' s l.1)
  Leaves-Same a w v node_local_failure w' s (off, inl e) = (off, inl (e ∙ s.status))
  Leaves-Same a w v node_local_failure w' s (off, inr e) = (off, inr e)

  pub try_strategies-Leaves :
      (a : Attempt) (ss : List Strategy) (interfered : Bool) (w : Walk S H)
      → w.running ≡ false
      → (let r = try_strategies b env plan a ss interfered w in Leaves a w r.outcome r.walk)
  unfolding try_strategies
  try_strategies-Leaves a [] interfered w off = (off, Same_refl w)
  try_strategies-Leaves a (s ∷ ss) interfered w off =
      let t = try_strategy b env plan a s (first ss) w in
      let fits = try_strategy-Fits a s (first ss) w off in
      elim (verdict_cases t.verdict) [
        | inl (o, reason, e) ↦ rw (e, try_strategies) (rw e at fits)
        | inr (inl e) ↦ rw (e, try_strategies) (rw e at fits)
        | inr (inr e) ↦
            let kept : Kept w t.walk = rw e at fits in
            let r = try_strategies b env plan a ss true t.walk in
            rw (e, try_strategies)
              (Leaves-Same a w t.walk r.outcome r.walk kept.1
                (try_strategies-Leaves a ss true t.walk kept.0))
      ]
