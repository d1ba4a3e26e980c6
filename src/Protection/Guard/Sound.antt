-- ===== src/Protection/Guard/Sound.antt =====
-- What the guard of core/protection/guard.go says of the host, operation by operation.
use tenebra.Prelude.{
  ℕ, Bool, true, false, not, ◌&&◌, Option, none, some, Bool-cases, Text, ◌≡◌, ◌≢◌, refl, inl, inr,
  ◌==◌, if-ind, arith,
}
use tenebra.Protection.Guard.{
  Failure, Status, active, blocked, VerifiedTunnel, Inspection, seen, failed, Backend, Guard, After,
  new, pending, fail, confirm, resting, set_state, after_native, apply_policy, prepare,
  recover_from, recover, verify_resolved, verify_tunnel, release, accepted, interrupted, is_blocked,
  is_active, has_tunnel,
}

module _ {H : Type 0} (b : Backend H) where
  -- The host enforces the block whenever the guard says so; it permits exactly the interface of
  -- the verified tunnel, while there is one; and an active guard has both.
  pub record Sound (g : Guard) (h : H) : Type 0 where
    pub enforced : g.state.enforced ≡ true → b.policy h ≢ none
    pub permits : (t : VerifiedTunnel) → g.tunnel ≡ some t → b.policy h ≡ some t.luid
    pub active_enforced : g.state.status ≡ active → g.state.enforced ≡ true
    pub active_tunnel : g.state.status ≡ active → g.tunnel ≢ none

  pub new-Sound : (backend : Bool) (h : H) → Sound (new backend) h
  unfolding new
  new-Sound true h = record {
    enforced = λ e. cc;
    permits = λ t e. cc;
    active_enforced = λ e. cc;
    active_tunnel = λ e. cc;
  }
  new-Sound false h = record {
    enforced = λ e. cc;
    permits = λ t e. cc;
    active_enforced = λ e. cc;
    active_tunnel = λ e. cc;
  }

  -- A failure changes the status and the reason only.
  pub fail-Sound : (g : Guard) (h : H) (e : Failure) → Sound g h → Sound (fail g e) h
  unfolding fail
  fail-Sound g h e s = record {
    enforced = s.enforced;
    permits = s.permits;
    active_enforced = λ a. cc;
    active_tunnel = λ a. cc;
  }

  -- A host with the same policy serves as well.
  pub same-Sound : (g : Guard) (h h' : H) → b.policy h' ≡ b.policy h → Sound g h → Sound g h'
  same-Sound g h h' e s = record {
    enforced = λ up. rw e (s.enforced up);
    permits = λ t has. rw e (s.permits t has);
    active_enforced = s.active_enforced;
    active_tunnel = s.active_tunnel;
  }

  pending-Sound : (g : Guard) (h : H) → Sound g h → Sound (pending g) h
  unfolding pending
  pending-Sound g h s = record {
    enforced = s.enforced;
    permits = s.permits;
    active_enforced = λ a. cc;
    active_tunnel = λ a. cc;
  }

  abbrev permitted : Option VerifiedTunnel → ℕ
  permitted none = 0
  permitted (some t) = t.luid

  confirm_blocked-Sound :
      (g : Guard) (h : H) (t : Option VerifiedTunnel) (luid : ℕ)
      → luid ≡ permitted t
      → b.policy h ≡ some luid
      → Sound (confirm g (resting blocked true) t) h
  confirm_blocked-Sound g h t luid e p = record {
    enforced = λ up none'. cc;
    permits = λ v has. ground arith;
    active_enforced = λ a. cc;
    active_tunnel = λ a. cc;
  }

  replaced-Sound :
      (g : Guard) (h : H) (t : Option VerifiedTunnel) (luid : ℕ) (r : Option Text)
      → (b.replace h luid).1 ≡ r
      → luid ≡ permitted t
      → Sound g h
      → let a = after_native (pending g) (b.replace h luid).0 r (resting blocked true) t in
        Sound a.guard a.host
  unfolding after_native
  replaced-Sound g h t luid none e same s =
      confirm_blocked-Sound (pending g) (b.replace h luid).0 t luid same (b.replace_done h luid e)
  replaced-Sound g h t luid (some x) e same s =
      fail-Sound (pending g) (b.replace h luid).0 (Failure.native x) (
        same-Sound (pending g) h (b.replace h luid).0 (b.replace_failed h luid x e)
          (pending-Sound g h s))

  apply_policy-Sound :
      (g : Guard) (h : H) (t : Option VerifiedTunnel) (luid : ℕ)
      → luid ≡ permitted t
      → Sound g h
      → Sound (apply_policy b g h luid t).guard (apply_policy b g h luid t).host
  unfolding apply_policy
  apply_policy-Sound g h t luid same s = replaced-Sound g h t luid (b.replace h luid).1 refl same s

  pub prepare-Sound :
      (g : Guard) (h : H) → Sound g h → Sound (prepare b g h).guard (prepare b g h).host
  unfolding prepare
  prepare-Sound g h s =
      if-ind (λ (a : After H). Sound a.guard a.host) g.backend _ _
        (λ _. apply_policy-Sound g h none 0 refl s) (λ _. s)

  recover_from-Sound :
      (g : Guard) (h : H) (i : Inspection)
      → b.inspect h ≡ i
      → Sound g h
      → Sound (recover_from b g h i).guard (recover_from b g h i).host
  unfolding recover_from
  recover_from-Sound g h (failed x) e s = fail-Sound g h (Failure.native x) s
  recover_from-Sound g h (seen false complete) e s = record {
    enforced = λ up. cc;
    permits = λ t has. cc;
    active_enforced = λ a. cc;
    active_tunnel = λ a. cc;
  }
  recover_from-Sound g h (seen true complete) e s =
      prepare-Sound (set_state g (resting blocked complete)) h (record {
        enforced = (b.inspect_lem h true complete e).0;
        permits = s.permits;
        active_enforced = λ a. cc;
        active_tunnel = λ a. cc;
      })

  pub recover-Sound :
      (g : Guard) (h : H) → Sound g h → Sound (recover b g h).guard (recover b g h).host
  unfolding recover
  recover-Sound g h s =
      if-ind (λ (a : After H). Sound a.guard a.host) g.backend _ _
        (λ _. recover_from-Sound g h (b.inspect h) refl s) (λ _. s)

  verify_resolved-Sound :
      (g : Guard) (h : H) (name address : Text) (r : ℕ × Option Text)
      → Sound g h
      → Sound
          (verify_resolved b g h name address r).guard
          (verify_resolved b g h name address r).host
  unfolding verify_resolved
  verify_resolved-Sound g h name address (luid, some x) s = fail-Sound g h (Failure.native x) s
  verify_resolved-Sound g h name address (luid, none) s = elim (Bool-cases (luid == 0)) [
    | inl zero_luid ↦ rw (zero_luid, verify_resolved) (fail-Sound g h Failure.no_identity s)
    | inr found ↦
        rw (found, verify_resolved)
          (apply_policy-Sound g h (some (record { name = name; address = address; luid = luid }))
            luid refl s)
  ]

  pub verify_tunnel-Sound :
      (g : Guard) (h : H) (name address : Text) (proxy : Bool)
      → Sound g h
      → Sound
          (verify_tunnel b g h name address proxy).guard
          (verify_tunnel b g h name address proxy).host
  unfolding verify_tunnel
  verify_tunnel-Sound g h name address proxy s =
      if-ind (λ (a : After H). Sound a.guard a.host) (not g.backend) _ _ (λ _. s)
        (λ _.
          if-ind (λ (a : After H). Sound a.guard a.host) proxy _ _
            (λ _.
              apply_policy-Sound g h (some (record { name = name; address = address; luid = 0 })) 0
                refl s)
            (λ _. verify_resolved-Sound g h name address (b.resolve_tunnel h name address) s))

  released-Sound :
      (g : Guard) (h : H) (r : Option Text)
      → (b.remove h).1 ≡ r
      → Sound g h
      → let a = after_native (pending g) (b.remove h).0 r (resting Status.off false) none in
        Sound a.guard a.host
  unfolding after_native
  released-Sound g h none e s = record {
    enforced = λ up. cc;
    permits = λ t has. cc;
    active_enforced = λ a. cc;
    active_tunnel = λ a. cc;
  }
  released-Sound g h (some x) e s =
      fail-Sound (pending g) (b.remove h).0 (Failure.native x)
        (same-Sound (pending g) h (b.remove h).0 (b.remove_failed h x e) (pending-Sound g h s))

  pub release-Sound :
      (g : Guard) (h : H) → Sound g h → Sound (release b g h).guard (release b g h).host
  unfolding release
  release-Sound g h s =
      if-ind (λ (a : After H). Sound a.guard a.host) g.backend _ _
        (λ _. released-Sound g h (b.remove h).1 refl s) (λ _. s)

  pub accepted-Sound : (g : Guard) (h : H) → Sound g h → Sound (accepted g) h
  unfolding accepted
  accepted-Sound g h s =
      if-ind (λ a. Sound a h) (is_blocked g.state.status && g.state.enforced && has_tunnel g.tunnel)
        _ _
        (λ c. record {
          enforced = s.enforced;
          permits = s.permits;
          active_enforced = λ a. ground arith;
          active_tunnel = λ a none'. ground arith;
        })
        (λ c. s)

  pub interrupted-Sound : (g : Guard) (h : H) → Sound g h → Sound (interrupted g) h
  unfolding interrupted
  interrupted-Sound g h s =
      if-ind (λ a. Sound a h) (is_active g.state.status) _ _
        (λ c. record {
          enforced = s.enforced;
          permits = s.permits;
          active_enforced = λ a. cc;
          active_tunnel = λ a. cc;
        })
        (λ c. s)
