-- ===== src/Protection/Guard/Verified.antt =====
-- What a `VerifyTunnel` of core/protection/guard.go without an error, and `Accepted` behind it,
-- leave.
use tenebra.Prelude.{
  ℕ, Bool, true, not, Bool-cases, Option, none, some, Text, ◌≡◌, refl, inl, inr, ◌==◌, arith,
  if-ind,
}
use tenebra.Protection.Guard.{
  active, blocked, VerifiedTunnel, Backend, Guard, After, resting, pending, after_native,
  apply_policy, verify_resolved, verify_tunnel, accepted,
}

module _ {H : Type 0} (b : Backend H) where
  -- The guard has a verified tunnel under the block, and the host permits exactly its interface.
  abbrev pub IsVerified : After H → Type 0
  IsVerified a =
      (a.guard.state ≡ resting blocked true)
      × ((t : VerifiedTunnel) × (a.guard.tunnel ≡ some t) × (b.policy a.host ≡ some t.luid))

  native-IsVerified :
      (g : Guard) (h : H) (t : VerifiedTunnel) (r : Option Text)
      → (b.replace h t.luid).1 ≡ r
      → (after_native g (b.replace h t.luid).0 r (resting blocked true) (some t)).failure ≡ none
      → IsVerified (after_native g (b.replace h t.luid).0 r (resting blocked true) (some t))
  unfolding after_native
  native-IsVerified g h t none e ok = (refl, (t, refl, b.replace_done h t.luid e))
  native-IsVerified g h t (some x) e ok = cc

  apply_policy-IsVerified :
      (g : Guard) (h : H) (t : VerifiedTunnel)
      → (apply_policy b g h t.luid (some t)).failure ≡ none
      → IsVerified (apply_policy b g h t.luid (some t))
  unfolding apply_policy
  apply_policy-IsVerified g h t ok =
      native-IsVerified (pending g) h t (b.replace h t.luid).1 refl ok

  resolved-IsVerified :
      (g : Guard) (h : H) (name address : Text) (r : ℕ × Option Text)
      → (verify_resolved b g h name address r).failure ≡ none
      → IsVerified (verify_resolved b g h name address r)
  unfolding verify_resolved
  resolved-IsVerified g h name address (luid, some e) ok = cc
  resolved-IsVerified g h name address (luid, none) ok = elim (Bool-cases (luid == 0)) [
    | inl z ↦ absurd (cc (rw z at ok))
    | inr n ↦ rw n (
        apply_policy-IsVerified g h (record { name = name; address = address; luid = luid })
          (rw n at ok))
  ]

  pub verify_tunnel-IsVerified :
      (g : Guard) (h : H) (name address : Text) (proxy : Bool)
      → (verify_tunnel b g h name address proxy).failure ≡ none
      → IsVerified (verify_tunnel b g h name address proxy)
  unfolding verify_tunnel
  verify_tunnel-IsVerified g h name address proxy =
      if-ind (λ (a : After H). a.failure ≡ none → IsVerified a) (not g.backend) _ _
        (λ _ ok. absurd (cc ok))
        (λ _.
          if-ind (λ (a : After H). a.failure ≡ none → IsVerified a) proxy _ _
            (λ _. apply_policy-IsVerified g h (record { name = name; address = address; luid = 0 }))
            (λ _. resolved-IsVerified g h name address (b.resolve_tunnel h name address)))

  pub accepted-active :
      (a : After H)
      → IsVerified a
      → ((accepted a.guard).state.status ≡ active)
        × ((t : VerifiedTunnel) × ((accepted a.guard).tunnel ≡ some t)
            × (b.policy a.host ≡ some t.luid))
  unfolding accepted
  accepted-active a (blocked', (t, has, policy)) = (ground arith, (t, ground arith, policy))
