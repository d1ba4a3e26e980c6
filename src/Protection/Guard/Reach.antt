-- ===== src/Protection/Guard/Reach.antt =====
-- The operations of the guard as the steps of a machine, in any order, on a host that other
-- programs change meanwhile without touching the guard's own policy.
use tenebra.Prelude.{
  ℕ, Bool, true, false, not, Option, none, some, Text, ◌≡◌, ◌≢◌, refl, ◌==◌, if-ind,
}
use tenebra.Protection.Guard.{
  Failure, Status, VerifiedTunnel, Inspection, seen, failed, State, resting, blocked, Backend,
  Guard, After, new, pending, fail, set_state, after_native, apply_policy, prepare, recover_from,
  recover, verify_resolved, verify_tunnel, release, accepted, interrupted,
}
use tenebra.Protection.Guard.Sound.{
  Sound, new-Sound, fail-Sound, same-Sound, prepare-Sound, recover-Sound, verify_tunnel-Sound,
  release-Sound, accepted-Sound, interrupted-Sound,
}

-- The calls that change the guard.
pub data Op : Type 0 where
  do_prepare do_recover do_release do_accept do_interrupt : Op
  do_verify : Text → Text → Bool → Op
  do_reject : Failure → Op

abbrev pub is_release : Op → Bool
is_release do_release = true
is_release _ = false

module _ {H : Type 0} (b : Backend H) where
  unfoldable pub run : Op → Guard → H → After H
  run do_prepare g h = prepare b g h
  run do_recover g h = recover b g h
  run do_release g h = release b g h
  run do_accept g h = record { guard = accepted g; host = h; failure = none }
  run do_interrupt g h = record { guard = interrupted g; host = h; failure = none }
  run (do_verify name address proxy) g h = verify_tunnel b g h name address proxy
  run (do_reject e) g h = record { guard = fail g e; host = h; failure = some e }

  -- The guards and hosts that follow a start.
  pub data Reach (g0 : Guard) (h0 : H) : Guard → H → Type 0 where
    here : Reach g0 h0 g0 h0
    step :
        {g : Guard} {h : H} (o : Op)
        → Reach g0 h0 g h
        → Reach g0 h0 (run o g h).guard (run o g h).host
    drift :
        {g : Guard} {h : H} (h' : H) → b.policy h' ≡ b.policy h → Reach g0 h0 g h → Reach g0 h0 g h'

  run-Sound :
      (o : Op) (g : Guard) (h : H) → Sound b g h → Sound b (run o g h).guard (run o g h).host
  unfolding run
  run-Sound do_prepare g h s = prepare-Sound b g h s
  run-Sound do_recover g h s = recover-Sound b g h s
  run-Sound do_release g h s = release-Sound b g h s
  run-Sound do_accept g h s = accepted-Sound b g h s
  run-Sound do_interrupt g h s = interrupted-Sound b g h s
  run-Sound (do_verify name address proxy) g h s = verify_tunnel-Sound b g h name address proxy s
  run-Sound (do_reject e) g h s = fail-Sound b g h e s

  -- After any operations in any order from a new guard, the host enforces the block whenever the
  -- guard says that it is enforced, it permits exactly the interface of the verified tunnel while
  -- there is one, and an active guard is enforced and has a verified tunnel.
  pub Reach-Sound :
      (backend : Bool) (h0 : H) {g : Guard} {h : H} → Reach (new backend) h0 g h → Sound b g h
  Reach-Sound backend h0 here = new-Sound b backend h0
  Reach-Sound backend h0 (step {g} {h} o r) = run-Sound o g h (Reach-Sound backend h0 r)
  Reach-Sound backend h0 (drift {g} {h} h' e r) = same-Sound b g h h' e (Reach-Sound backend h0 r)

  -- A failed call leaves the policy and the verified tunnel.
  Fails : Guard → H → After H → Type 0
  Fails g h a =
      (e : Failure)
      → a.failure ≡ some e
      → (b.policy a.host ≡ b.policy h) × (a.guard.tunnel ≡ g.tunnel)

  after_replace-Fails :
      (g : Guard) (h : H) (luid : ℕ) (r : Option Text) (s : State) (t : Option VerifiedTunnel)
      → (b.replace h luid).1 ≡ r
      → Fails g h (after_native (pending g) (b.replace h luid).0 r s t)
  unfolding Fails after_native pending fail
  after_replace-Fails g h luid none s t q e bad = cc
  after_replace-Fails g h luid (some x) s t q e bad = (b.replace_failed h luid x q, refl)

  apply_policy-Fails :
      (g : Guard) (h : H) (luid : ℕ) (t : Option VerifiedTunnel)
      → Fails g h (apply_policy b g h luid t)
  unfolding apply_policy
  apply_policy-Fails g h luid t =
      after_replace-Fails g h luid (b.replace h luid).1 (resting blocked true) t refl

  unmoved-Fails :
      (g : Guard) (h : H) (r : Option Failure)
      → Fails g h (record { guard = g; host = h; failure = r })
  unfolding Fails
  unmoved-Fails g h r e bad = (refl, refl)

  prepare-Fails : (g : Guard) (h : H) → Fails g h (prepare b g h)
  unfolding prepare
  prepare-Fails g h =
      if-ind (Fails g h) g.backend _ _ (λ _. apply_policy-Fails g h 0 none)
        (λ _. unmoved-Fails g h _)

  recover_from-Fails : (g : Guard) (h : H) (i : Inspection) → Fails g h (recover_from b g h i)
  unfolding recover_from Fails fail
  recover_from-Fails g h (failed x) e bad = (refl, refl)
  recover_from-Fails g h (seen false complete) e bad = cc
  recover_from-Fails g h (seen true complete) e bad =
      prepare-Fails (set_state g (resting blocked complete)) h e bad

  verify_resolved-Fails :
      (g : Guard) (h : H) (name address : Text) (r : ℕ × Option Text)
      → Fails g h (verify_resolved b g h name address r)
  unfolding verify_resolved fail Fails
  verify_resolved-Fails g h name address (luid, some x) = λ e bad. (refl, refl)
  verify_resolved-Fails g h name address (luid, none) =
      if-ind (Fails g h) (luid == 0) _ _ (λ _ e bad. (refl, refl))
        (λ _. apply_policy-Fails g h luid _)

  after_remove-Fails :
      (g : Guard) (h : H) (r : Option Text) (s : State)
      → (b.remove h).1 ≡ r
      → Fails g h (after_native (pending g) (b.remove h).0 r s none)
  unfolding Fails after_native pending fail
  after_remove-Fails g h none s q e bad = cc
  after_remove-Fails g h (some x) s q e bad = (b.remove_failed h x q, refl)

  run-Fails : (o : Op) (g : Guard) (h : H) → Fails g h (run o g h)
  unfolding run recover verify_tunnel release Fails fail
  run-Fails do_prepare g h = prepare-Fails g h
  run-Fails do_recover g h =
      if-ind (Fails g h) g.backend _ _ (λ _. recover_from-Fails g h (b.inspect h))
        (λ _. unmoved-Fails g h _)
  run-Fails do_release g h =
      if-ind (Fails g h) g.backend _ _
        (λ _. after_remove-Fails g h (b.remove h).1 (resting Status.off false) refl)
        (λ _. unmoved-Fails g h _)
  run-Fails do_accept g h = λ e bad. cc
  run-Fails do_interrupt g h = λ e bad. cc
  run-Fails (do_verify name address proxy) g h =
      if-ind (Fails g h) (not g.backend) _ _ (λ _. unmoved-Fails g h _)
        (λ _.
          if-ind (Fails g h) proxy _ _ (λ _. apply_policy-Fails g h 0 _)
            (λ _. verify_resolved-Fails g h name address (b.resolve_tunnel h name address)))
  run-Fails (do_reject x) g h = λ e bad. (refl, refl)

  -- An operation that returns an error leaves the policy that the host enforces, and the tunnel
  -- that the guard has verified, as they were.
  pub run-failure :
      (o : Op) (g : Guard) (h : H) (e : Failure)
      → (run o g h).failure ≡ some e
      → (b.policy (run o g h).host ≡ b.policy h) × ((run o g h).guard.tunnel ≡ g.tunnel)
  unfolding Fails
  run-failure o g h e bad = run-Fails o g h e bad

  -- A call that keeps the block up.
  Keeps : H → After H → Type 0
  Keeps h a = b.policy h ≢ none → b.policy a.host ≢ none

  after_replace-Keeps :
      (g : Guard) (h : H) (luid : ℕ) (r : Option Text) (s : State) (t : Option VerifiedTunnel)
      → (b.replace h luid).1 ≡ r
      → Keeps h (after_native g (b.replace h luid).0 r s t)
  unfolding Keeps after_native
  after_replace-Keeps g h luid none s t q up = λ down. let p = b.replace_done h luid q in cc
  after_replace-Keeps g h luid (some x) s t q up = rw (b.replace_failed h luid x q) up

  apply_policy-Keeps :
      (g : Guard) (h : H) (luid : ℕ) (t : Option VerifiedTunnel)
      → Keeps h (apply_policy b g h luid t)
  unfolding apply_policy
  apply_policy-Keeps g h luid t =
      after_replace-Keeps (pending g) h luid (b.replace h luid).1 (resting blocked true) t refl

  unmoved-Keeps :
      (g : Guard) (h : H) (r : Option Failure)
      → Keeps h (record { guard = g; host = h; failure = r })
  unfolding Keeps
  unmoved-Keeps g h r up = up

  prepare-Keeps : (g : Guard) (h : H) → Keeps h (prepare b g h)
  unfolding prepare
  prepare-Keeps g h =
      if-ind (Keeps h) g.backend _ _ (λ _. apply_policy-Keeps g h 0 none) (λ _. unmoved-Keeps g h _)

  recover_from-Keeps : (g : Guard) (h : H) (i : Inspection) → Keeps h (recover_from b g h i)
  unfolding recover_from
  recover_from-Keeps g h (failed x) = unmoved-Keeps _ h _
  recover_from-Keeps g h (seen false complete) = unmoved-Keeps _ h _
  recover_from-Keeps g h (seen true complete) =
      prepare-Keeps (set_state g (resting blocked complete)) h

  verify_resolved-Keeps :
      (g : Guard) (h : H) (name address : Text) (r : ℕ × Option Text)
      → Keeps h (verify_resolved b g h name address r)
  unfolding verify_resolved
  verify_resolved-Keeps g h name address (luid, some x) = unmoved-Keeps _ h _
  verify_resolved-Keeps g h name address (luid, none) =
      if-ind (Keeps h) (luid == 0) _ _ (λ _. unmoved-Keeps _ h _)
        (λ _. apply_policy-Keeps g h luid _)

  -- No operation but `Release` takes the block down, whether it succeeds or fails.
  pub run-keeps_block :
      (o : Op) (g : Guard) (h : H)
      → is_release o ≡ false
      → b.policy h ≢ none
      → b.policy (run o g h).host ≢ none
  unfolding run recover verify_tunnel Keeps
  run-keeps_block do_prepare g h other = prepare-Keeps g h
  run-keeps_block do_recover g h other =
      if-ind (Keeps h) g.backend _ _ (λ _. recover_from-Keeps g h (b.inspect h)) (λ _ up. up)
  run-keeps_block do_release g h other = cc
  run-keeps_block do_accept g h other = λ up. up
  run-keeps_block do_interrupt g h other = λ up. up
  run-keeps_block (do_verify name address proxy) g h other =
      if-ind (Keeps h) (not g.backend) _ _ (λ _ up. up)
        (λ _.
          if-ind (Keeps h) proxy _ _ (λ _. apply_policy-Keeps g h 0 _)
            (λ _. verify_resolved-Keeps g h name address (b.resolve_tunnel h name address)))
  run-keeps_block (do_reject x) g h other = λ up. up
