-- ===== src/Control/Success/Steady.antt =====
-- `recordSuccess` of core/control/connect.go, where nothing disturbs it from outside.
use tenebra.Prelude.{ℕ, ◌+◌, true, false, none, Text, ◌≡◌, ◌≢◌, refl, if-ind}
use tenebra.Protection.Guard.{Backend, Guard, After}
use tenebra.Fallback.LastGood.{LastGood}
use tenebra.Fallback.Machine.{Attempt}
use tenebra.Fallback.Strategy.{Strategy}
use tenebra.Control.Protect.{is_system_proxy, is_error, activate_protection}
use tenebra.Control.State.{refused, Env, Built, Plan, Walk, gone}
use tenebra.Control.Success.{accept, after_protection, arm_proxy, record_success}
use tenebra.Control.Success.Recorded.{activation}

-- No other connection takes the walk's place, no start fails on this machine, and neither the host
-- protection nor the system proxy is asked for.
pub record IsSteady (env : Env) (plan : Plan) : Type 0 where
  pub running : (t : ℕ) → env.cancelled t ≡ false
  pub current : (t : ℕ) → env.current t ≡ true
  pub no_switch : (t : ℕ) → env.kill_switch t ≡ false
  pub no_proxy : is_system_proxy plan.tun ≡ false
  pub no_local : (t : ℕ) (json e : Text) → env.start t json ≢ refused true e

-- The guard enforces nothing and has no error.
abbrev pub IsIdle : Guard → Type 0
IsIdle g = (g.state.enforced ≡ false) × (is_error g.state.status ≡ false)

module _ {S H : Type 0} ⦃lg : LastGood S⦄ (b : Backend H) (env : Env) (plan : Plan)
    (steady : IsSteady env plan) where
  pub not_gone : (w : Walk S H) → gone env w ≡ false
  not_gone w = rw (steady.running w.clock, steady.current w.clock)

  activation_idle :
      (t : ℕ) (w : Walk S H) → IsIdle w.guard → (activation b env plan t w).failure ≡ none
  unfolding activate_protection
  activation_idle t w (off, fine) =
      if-ind (λ (a : After H). a.failure ≡ none) w.guard.legacy_engine_only _ _ (λ _. refl)
        (λ _. rw (steady.no_switch t, off, fine))

  pub record_success_steady :
      (a : Attempt) (strat : Strategy) (sel : Built) (w : Walk S H)
      → IsIdle w.guard
      → (record_success b env plan a strat sel w).problem ≡ none
  unfolding record_success after_protection arm_proxy accept
  record_success_steady a strat sel w idle = rw (
    not_gone w,
    activation_idle (w.clock + 1) w idle,
    steady.no_proxy,
    steady.running ((w.clock + 1) + 1),
    steady.current ((w.clock + 1) + 1),
  )
