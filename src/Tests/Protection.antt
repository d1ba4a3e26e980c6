-- ===== src/Tests/Protection.antt =====
-- A host whose policy is the interface that it permits, and the guard on it.
use tenebra.Prelude.{
  ℕ, Bool, true, false, Option, none, some, Text, codes, ◌≡◌, ◌≢◌, refl, text_eq, if◌then◌else◌,
  arith,
}
use tenebra.Protection.Guard.{
  no_identity, Backend, After, seen, new, active, prepare, verify_tunnel, accepted,
}
use tenebra.Protection.Guard.Sound.{Sound}
use tenebra.Protection.Guard.Reach.{
  Op, do_prepare, do_verify, do_accept, run, here, step, Reach-Sound, run-failure, run-keeps_block,
}
use tenebra.Protection.Policy.{connect4, outbound, ipv6, policy}
use tenebra.Protection.Policy.Traffic.{Packet, decide, allowed, is_dns, is_trusted, is_dhcp, is_ndp}
use tenebra.Protection.Policy.Verdict.{policy-allowed}

pub present : Option ℕ → Bool
present none = false
present (some l) = true

pub inspect_present :
    (h : Option ℕ) (p c : Bool)
    → seen (present h) (present h) ≡ seen p c
    → (c ≡ true → h ≢ none) × (h ≢ none → c ≡ true) × (p ≡ false → h ≡ none)
unfolding present
inspect_present none p c e = (λ q. ground arith, λ q. ground arith, λ q. refl)
inspect_present (some l) p c e = (λ q. ground arith, λ q. ground arith, λ q. ground arith)

pub replace_total : (h : Option ℕ) (l : ℕ) (x : Text) → none ≡ some x → some l ≡ h
replace_total h l x e = cc

pub remove_total : (h : Option ℕ) (x : Text) → none ≡ some x → none ≡ h
remove_total h x e = cc

-- The interface of `tun0` is 7, and no other has an identity.
abbrev pub host_backend : Backend (Option ℕ)
host_backend = record {
  inspect = λ h. seen (present h) (present h);
  replace = λ h l. (some l, none);
  resolve_tunnel = λ h name address. if text_eq name (codes "tun0") then (7, none) else (0, none);
  remove = λ h. (none, none);
  policy = λ h. h;
  inspect_lem = inspect_present;
  replace_done = λ h l e. refl;
  replace_failed = λ h l x e. replace_total h l x e;
  remove_done = λ h e. refl;
  remove_failed = λ h x e. remove_total h x e;
}

abbrev prepared : After (Option ℕ)
prepared = run host_backend do_prepare (new true) none

abbrev to_tun0 : Op
to_tun0 = do_verify (codes "tun0") (codes "10.0.0.1") false

abbrev to_tun1 : Op
to_tun1 = do_verify (codes "tun1") (codes "10.0.0.1") false

abbrev verified : After (Option ℕ)
verified = run host_backend to_tun0 prepared.guard prepared.host

abbrev connected : After (Option ℕ)
connected = run host_backend do_accept verified.guard verified.host

connected_active : connected.guard.state.status ≡ active
unfolding run prepare verify_tunnel accepted new text_eq
connected_active = refl

Reach-Sound_example : Sound host_backend connected.guard connected.host
Reach-Sound_example =
    Reach-Sound host_backend true none {g = connected.guard} {h = connected.host}
      (step do_accept (step to_tun0 (step do_prepare here)))

to_tun1_fails : (run host_backend to_tun1 verified.guard verified.host).failure ≡ some no_identity
unfolding run prepare verify_tunnel new text_eq
to_tun1_fails = refl

run-failure_example :
    ((run host_backend to_tun1 verified.guard verified.host).host ≡ verified.host)
    × ((run host_backend to_tun1 verified.guard verified.host).guard.tunnel ≡ verified.guard.tunnel)
run-failure_example =
    run-failure host_backend to_tun1 verified.guard verified.host no_identity to_tun1_fails

verified_up : verified.host ≢ none
unfolding run prepare verify_tunnel new text_eq
verified_up = λ e. cc

run-keeps_block_example : (run host_backend to_tun1 verified.guard verified.host).host ≢ none
run-keeps_block_example =
    run-keeps_block host_backend to_tun1 verified.guard verified.host refl verified_up

abbrev probe : Packet
probe = record {
  layer = connect4;
  looped = false;
  luid = 3;
  program = codes "browser";
  proto = 6;
  source = 50000;
  target = 443;
  within = λ prefix. false;
}

policy-allowed_example : decide probe (policy 7) ≡ some (allowed 7 probe)
policy-allowed_example = policy-allowed 7 probe

probe_blocked : allowed 7 probe ≡ false
unfolding allowed is_dns is_trusted is_dhcp is_ndp outbound ipv6 text_eq
probe_blocked = refl
