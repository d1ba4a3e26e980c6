-- ===== src/Control/Success/Recorded.antt =====
-- What `recordSuccess` of core/control/connect.go leaves, with and without an error.
use tenebra.Prelude.{
  ℕ, ◌+◌, Bool-cases, Option-cases, Option, none, some, Text, ◌≡◌, ◌⊎◌, inl, inr, refl,
}
use tenebra.Protection.Guard.{Backend, After, accepted}
use tenebra.Fallback.LastGood.{LastGood}
use tenebra.Fallback.Machine.{Attempt}
use tenebra.Fallback.Strategy.{Strategy}
use tenebra.Control.Tracker.{connected, mark_succeeded}
use tenebra.Control.Proxy.{arm_system_proxy}
use tenebra.Control.Protect.{is_system_proxy, activate_protection}
use tenebra.Control.State.{
  Env, Built, Plan, up, Problem, cancelled, system_proxy, host_protection, Walk, tick, set_state,
  gone, Done,
}
use tenebra.Control.State.Same.{track-Same}
use tenebra.Control.Success.{
  settle, promote, accept, after_proxy, arm_proxy, after_protection, record_success,
}

module _ {S H : Type 0} ⦃lg : LastGood S⦄ (b : Backend H) (env : Env) (plan : Plan) where
  -- The activation of the protection at a moment, with the guard and the host of a walk.
  abbrev pub activation : ℕ → Walk S H → After H
  activation t w =
      activate_protection b env.parsers env.default_tun_name (env.kill_switch t) plan.options
        plan.tun w.guard w.host

  -- The walk is published as connected to the node of the attempt. At some moment the protection
  -- was activated without an error, and the guard was told that the tunnel is accepted.
  pub record IsConnected (a : Attempt) (w w' : Walk S H) : Type 0 where
    pub phase : w'.status.phase ≡ up
    pub node : w'.status.node ≡ a.node_id
    pub profile : w'.status.profile ≡ plan.profile_id
    pub problem : w'.status.problem ≡ none
    pub reported : w'.status.protection ≡ w'.guard.state
    pub moment : ℕ
    pub activated : (activation moment w).failure ≡ none
    pub guard : w'.guard ≡ accepted (activation moment w).guard
    pub host : w'.host ≡ (activation moment w).host

  -- A done operation: published, or with a problem and the state as it was.
  abbrev pub Recorded : Attempt → Walk S H → Done S H → Type 0
  Recorded a w d =
      (d.walk.running ≡ w.running)
      × (((d.problem ≡ none) × IsConnected a w d.walk)
          ⊎ (((p : Problem) × (d.problem ≡ some p)) × (d.walk.status ≡ w.status)))

  -- The walk behind an activation without an error.
  record IsActivated (w v : Walk S H) : Type 0 where
    moment : ℕ
    activated : (activation moment w).failure ≡ none
    guard : v.guard ≡ (activation moment w).guard
    host : v.host ≡ (activation moment w).host
    status : v.status ≡ w.status
    running : v.running ≡ w.running

  promoted :
      (a : Attempt) (strat : Strategy) (sel : Built) (w v : Walk S H)
      → IsActivated w v
      → ((promote b env plan a strat sel v).running ≡ w.running)
        × IsConnected a w (promote b env plan a strat sel v)
  unfolding promote set_state settle
  promoted a strat sel w v k =
      let (s, r) =
        track-Same env a.node_id (mark_succeeded strat) connected (settle b env plan a sel v) in
      (
        cc (r, k.running),
        record {
          phase = refl;
          node = refl;
          profile = refl;
          problem = refl;
          reported = refl;
          moment = k.moment;
          activated = k.activated;
          guard = cc (s.guard, k.guard);
          host = cc (s.host, k.host);
        },
      )

  later : (w v : Walk S H) → IsActivated w v → IsActivated w (tick v)
  later w v k = record {
    moment = k.moment;
    activated = k.activated;
    guard = k.guard;
    host = k.host;
    status = k.status;
    running = k.running;
  }

  accept-Recorded :
      (a : Attempt) (strat : Strategy) (sel : Built) (w v : Walk S H)
      → IsActivated w v
      → Recorded a w (accept b env plan a strat sel v)
  unfolding accept
  accept-Recorded a strat sel w v k = elim (Bool-cases (gone env v)) [
    | inl t ↦ rw t (k.running, inr ((cancelled, refl), k.status))
    | inr f ↦
        rw f (let (r, c) = promoted a strat sel w (tick v) (later w v k) in (r, inl (refl, c)))
  ]

  after_proxy-Recorded :
      (a : Attempt) (strat : Strategy) (sel : Built) (w v : Walk S H) (e : Option Text)
      → IsActivated w v
      → Recorded a w (after_proxy b env plan a strat sel v e)
  unfolding after_proxy
  after_proxy-Recorded a strat sel w v none k = accept-Recorded a strat sel w v k
  after_proxy-Recorded a strat sel w v (some e) k =
      (k.running, inr ((system_proxy e, refl), k.status))

  arm_proxy-Recorded :
      (a : Attempt) (strat : Strategy) (sel : Built) (w v : Walk S H)
      → IsActivated w v
      → Recorded a w (arm_proxy b env plan a strat sel v)
  unfolding arm_proxy
  arm_proxy-Recorded a strat sel w v k = elim (Bool-cases (is_system_proxy plan.tun)) [
    | inl t ↦ rw t (
        let armed = arm_system_proxy v.proxy plan.tun.mixed_host_port (env.proxy v.clock) in
        after_proxy-Recorded a strat sel w (record v { clock = v.clock + 1; proxy = armed.proxy })
          armed.failure
          (record {
            moment = k.moment;
            activated = k.activated;
            guard = k.guard;
            host = k.host;
            status = k.status;
            running = k.running;
          }))
    | inr f ↦ rw f (accept-Recorded a strat sel w v k)
  ]

  -- Whatever `recordSuccess` meets, it publishes the connection or returns an error and leaves the
  -- state.
  pub record_success-Recorded :
      (a : Attempt) (strat : Strategy) (sel : Built) (w : Walk S H)
      → Recorded a w (record_success b env plan a strat sel w)
  unfolding record_success after_protection
  record_success-Recorded a strat sel w = elim (Bool-cases (gone env w)) [
    | inl t ↦ rw t (refl, inr ((cancelled, refl), refl))
    | inr f ↦ elim (Option-cases (activation (w.clock + 1) w).failure) [
      | inl ok ↦ rw f (
          rw ok (
            arm_proxy-Recorded a strat sel w
              (record w {
                clock = (w.clock + 1) + 1;
                guard = (activation (w.clock + 1) w).guard;
                host = (activation (w.clock + 1) w).host;
              })
              (record {
                moment = w.clock + 1;
                activated = ok;
                guard = refl;
                host = refl;
                status = refl;
                running = refl;
              })))
      | inr (p, e) ↦ rw f (rw e (refl, inr ((host_protection p, refl), refl)))
    ]
  ]
