-- ===== src/Control/Cascade/Steady.antt =====
-- The attempts of core/control/connect.go that nothing disturbs from outside.
use tenebra.Prelude.{
  ℕ, ◌+◌, Bool, true, false, Bool-cases, Option, none, some, List, [], ◌∷◌, Text, codes, text_eq,
  ◌≡◌, ◌≢◌, ◌⊎◌, inl, inr, refl,
}
use tenebra.Protection.Guard.{Backend}
use tenebra.Fallback.LastGood.{LastGood}
use tenebra.Fallback.Machine.{Attempt}
use tenebra.Fallback.Strategy.{Strategy, is_default}
use tenebra.Fallback.Classify.{classify_attempt_failure}
use tenebra.Control.Candidates.{apply_strategy_to_nodes}
use tenebra.Control.Probe.{Probed, probe_until_up}
use tenebra.Control.State.{
  Start, started, refused, Env, Built, Plan, Walk, NodeOutcome, node_connected, node_superseded,
  node_failed, node_local_failure, tick, stop,
}
use tenebra.Control.Success.Steady.{IsSteady, IsIdle, not_gone, record_success_steady}
use tenebra.Control.Cascade.{
  Verdict, over, gave_up, escalate, after_record, after_stall, after_probe, after_start,
  after_build, try_strategy, try_strategies, attempt_node, first, is_censored,
}
use tenebra.Control.Cascade.Fits.{Kept, try_strategy-Fits, verdict_cases}

-- The configuration of the node builds, its process starts, and its probe comes up, at any time.
abbrev pub IsWorking : Env → Plan → Attempt → Type 0
IsWorking env plan a =
    (sel : Built) × (env.build plan.nodes (plan.tag a.node_id) ≡ some sel)
    × ((t : ℕ) → env.start t sel.json ≡ started)
    × ((t : ℕ)
        → (probe_until_up env.probe_timeout (env.warm t sel.json) (text_eq sel.default (codes ""))
            (env.rounds t sel.json)).up
          ≡ true)

abbrev IsUndisturbed : Verdict → Type 0
IsUndisturbed (over node_superseded reason) = ⊥
IsUndisturbed (over node_local_failure reason) = ⊥
IsUndisturbed (over node_connected reason) = Unit {0}
IsUndisturbed (over node_failed reason) = Unit {0}
IsUndisturbed gave_up = Unit {0}
IsUndisturbed escalate = Unit {0}

-- The two outcomes that are left.
abbrev pub IsSettled : NodeOutcome → Type 0
IsSettled o = (o ≡ node_connected) ⊎ (o ≡ node_failed)

over-IsSettled : (o : NodeOutcome) (reason : Text) → IsUndisturbed (over o reason) → IsSettled o
over-IsSettled node_connected reason u = inl refl
over-IsSettled node_failed reason u = inr refl
over-IsSettled node_superseded reason u = absurd u
over-IsSettled node_local_failure reason u = absurd u

default_first :
    is_default (record {
      name = codes "default";
      fingerprint = codes "";
      server_name = codes "";
      fragment = false;
    })
    ≡ true
unfolding is_default text_eq
default_first = refl

module _ {S H : Type 0} ⦃lg : LastGood S⦄ (b : Backend H) (env : Env) (plan : Plan)
    (steady : IsSteady env plan) where
  after_probe_up :
      (a : Attempt) (strat : Strategy) (next : Option Strategy) (sel : Built) (w : Walk S H)
      (p : Probed)
      → IsIdle w.guard
      → p.up ≡ true
      → (after_probe b env plan a strat next sel w p).verdict ≡ over node_connected (codes "")
  unfolding after_probe after_record
  after_probe_up a strat next sel w p idle u =
      rw (u, record_success_steady b env plan steady a strat sel w idle)

  after_stall-IsUndisturbed :
      (a : Attempt) (next : Option Strategy) (stalled : Bool) (w : Walk S H)
      → IsUndisturbed (after_stall b env plan a next stalled w).verdict
  unfolding after_stall
  after_stall-IsUndisturbed a none stalled w = tt
  after_stall-IsUndisturbed a (some next) stalled w =
      elim (Bool-cases (is_censored (classify_attempt_failure (env.dial w.clock) a.node stalled))) [
        | inl t ↦ rw t tt
        | inr f ↦ rw f tt
      ]

  after_probe-IsUndisturbed :
      (a : Attempt) (strat : Strategy) (next : Option Strategy) (sel : Built) (w : Walk S H)
      (p : Probed)
      → IsIdle w.guard
      → IsUndisturbed (after_probe b env plan a strat next sel w p).verdict
  unfolding after_probe
  after_probe-IsUndisturbed a strat next sel w p idle = elim (Bool-cases p.up) [
    | inl u ↦ rw (after_probe_up a strat next sel w p idle u, after_probe) tt
    | inr d ↦
        rw (d, steady.current w.clock) (after_stall-IsUndisturbed a next p.stalled (stop (tick w)))
  ]

  after_start-IsUndisturbed :
      (a : Attempt) (strat : Strategy) (next : Option Strategy) (sel : Built) (w : Walk S H)
      (s : Start)
      → IsIdle w.guard
      → ((e : Text) → s ≢ refused true e)
      → IsUndisturbed (after_start b env plan a strat next sel w s).verdict
  unfolding after_start
  after_start-IsUndisturbed a strat next sel w started idle ok =
      after_probe-IsUndisturbed a strat next sel (record w { clock = w.clock + 1; running = true })
        _ idle
  after_start-IsUndisturbed a strat next sel w (refused true e) idle ok = absurd (ok e refl)
  after_start-IsUndisturbed a strat next sel w (refused false e) idle ok =
      rw (steady.current w.clock) tt

  after_build-IsUndisturbed :
      (a : Attempt) (strat : Strategy) (next : Option Strategy) (w : Walk S H)
      (built : Option Built)
      → IsIdle w.guard
      → IsUndisturbed (after_build b env plan a strat next w built).verdict
  unfolding after_build
  after_build-IsUndisturbed a strat next w none idle = tt
  after_build-IsUndisturbed a strat next w (some sel) idle =
      after_start-IsUndisturbed a strat next sel (tick w) _ idle (steady.no_local w.clock sel.json)

  try_strategy-IsUndisturbed :
      (a : Attempt) (strat : Strategy) (next : Option Strategy) (w : Walk S H)
      → IsIdle w.guard
      → IsUndisturbed (try_strategy b env plan a strat next w).verdict
  unfolding try_strategy
  try_strategy-IsUndisturbed a strat next w idle =
      rw (not_gone b env plan steady w) (after_build-IsUndisturbed a strat next (tick w) _ idle)

  pub try_strategies-IsSettled :
      (a : Attempt) (ss : List Strategy) (interfered : Bool) (w : Walk S H)
      → w.running ≡ false
      → IsIdle w.guard
      → IsSettled (try_strategies b env plan a ss interfered w).outcome
  unfolding try_strategies
  try_strategies-IsSettled a [] interfered w off idle = inr refl
  try_strategies-IsSettled a (s ∷ ss) interfered w off idle =
      let t = try_strategy b env plan a s (first ss) w in
      let u = try_strategy-IsUndisturbed a s (first ss) w idle in
      let fits = try_strategy-Fits b env plan a s (first ss) w off in
      elim (verdict_cases t.verdict) [
        | inl (o, reason, e) ↦ rw (e, try_strategies) (over-IsSettled o reason (rw e at u))
        | inr (inl e) ↦ rw (e, try_strategies) (inr refl)
        | inr (inr e) ↦
            let kept : Kept w t.walk = rw e at fits in
            rw (e, try_strategies)
              (try_strategies-IsSettled a ss true t.walk kept.0 (rw kept.1.guard idle))
      ]

  first_try :
      (a : Attempt) (s : Strategy) (next : Option Strategy) (w : Walk S H)
      → IsIdle w.guard
      → is_default s ≡ true
      → IsWorking env plan a
      → (try_strategy b env plan a s next w).verdict ≡ over node_connected (codes "")
  unfolding try_strategy after_build after_start apply_strategy_to_nodes
  first_try a s next w idle d (sel, builds, starts, comes_up) =
      rw (not_gone b env plan steady w, d, builds, starts (w.clock + 1))
        (after_probe_up a s next sel _ _ idle (comes_up (w.clock + 1 + 1)))

  pub attempt_node_working :
      (a : Attempt) (w : Walk S H)
      → IsIdle w.guard
      → IsWorking env plan a
      → (attempt_node b env plan a w).outcome ≡ node_connected
  unfolding attempt_node try_strategies
  attempt_node_working a w idle works =
      rw (first_try a _ _ w idle default_first works, try_strategies)
