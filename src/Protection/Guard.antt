-- ===== src/Protection/Guard.antt =====
-- core/protection/guard.go. The backend is an interface that the operating system implements. Its
-- documented contract is the laws of `Backend`: `Replace` and `Remove` are atomic, a failed one
-- leaves the policy as it was, and `Inspect` verifies the complete block. The mutexes make each
-- operation one step on the guard and the host. The notify callback is left out.
pub mod Sound
pub mod Reach
pub mod Verified
use tenebra.Prelude.{
  ℕ, Bool, true, false, not, ◌&&◌, ◌||◌, Option, none, some, Text, codes, ◌≡◌, ◌≢◌, ◌↔◌, ◌==◌,
  if◌then◌else◌,
}

-- Why an operation failed: the guard's own reasons, or the backend's.
pub data Failure : Type 0 where
  no_backend no_identity : Failure
  native : Text → Failure

pub data Status : Type 0 where
  off unavailable applying blocked active error : Status

pub record State : Type 0 where
  pub status : Status
  pub enforced : Bool
  pub persistent : Bool
  pub error : Option Failure

pub record VerifiedTunnel : Type 0 where
  pub name : Text
  pub address : Text
  pub luid : ℕ

pub data Inspection : Type 0 where
  seen : Bool → Bool → Inspection
  failed : Text → Inspection

pub record Backend (H : Type 0) : Type 0 where
  pub inspect : H → Inspection
  pub replace : H → ℕ → H × Option Text
  pub resolve_tunnel : H → Text → Text → ℕ × Option Text
  pub remove : H → H × Option Text
  -- The complete block that the host enforces, with the interface that it permits; 0 is none.
  pub policy : H → Option ℕ
  pub inspect_lem :
      (h : H) (present complete : Bool)
      → inspect h ≡ seen present complete
      → (complete ≡ true → policy h ≢ none)
        × (policy h ≢ none → complete ≡ true)
        × (present ≡ false → policy h ≡ none)
  pub replace_done : (h : H) (l : ℕ) → (replace h l).1 ≡ none → policy (replace h l).0 ≡ some l
  pub replace_failed :
      (h : H) (l : ℕ) (e : Text) → (replace h l).1 ≡ some e → policy (replace h l).0 ≡ policy h
  pub remove_done : (h : H) → (remove h).1 ≡ none → policy (remove h).0 ≡ none
  pub remove_failed : (h : H) (e : Text) → (remove h).1 ≡ some e → policy (remove h).0 ≡ policy h

-- The guard's fields; `backend` says that there is one.
pub record Guard : Type 0 where
  pub backend : Bool
  pub state : State
  pub tunnel : Option VerifiedTunnel
  pub legacy_engine_only : Bool

abbrev pub resting : Status → Bool → State
resting status up = record { status = status; enforced = up; persistent = up; error = none }

-- `New`; the flag says that the backend is not nil.
unfoldable pub new : Bool → Guard
new backend = record {
  backend = backend;
  state = resting (if backend then off else unavailable) false;
  tunnel = none;
  legacy_engine_only = false;
}

-- `NewLegacyEngineOnly`; its error text is the reason of a missing backend.
unfoldable pub new_legacy_engine_only : Guard
unfolding new
new_legacy_engine_only =
    let g = new false in
    record g {
      legacy_engine_only = true;
      state = record {
        status = unavailable;
        enforced = false;
        persistent = false;
        error = some no_backend;
      };
    }

-- `set`.
abbrev pub set_state : Guard → State → Guard
set_state g s = record g { state = s }

-- `confirm`.
abbrev pub confirm : Guard → State → Option VerifiedTunnel → Guard
confirm g s t = record g { state = s; tunnel = t }

-- `pending`.
unfoldable pub pending : Guard → Guard
pending g = record g {
  state = record {
    status = applying;
    enforced = g.state.enforced;
    persistent = g.state.persistent;
    error = none;
  };
}

-- `fail`, and `Reject`.
unfoldable pub fail : Guard → Failure → Guard
fail g e = record g {
  state = record {
    status = error;
    enforced = g.state.enforced;
    persistent = g.state.persistent;
    error = some e;
  };
}

-- The guard and the host after an operation, and its error.
pub record After (H : Type 0) : Type 0 where
  pub guard : Guard
  pub host : H
  pub failure : Option Failure

-- What follows the call of `Replace` or `Remove`, on the pending guard.
after_native : {H : Type 0} → Guard → H → Option Text → State → Option VerifiedTunnel → After H
after_native g h none s t = record { guard = confirm g s t; host = h; failure = none }
after_native g h (some e) s t = record {
  guard = fail g (native e);
  host = h;
  failure = some (native e);
}

module _ {H : Type 0} (b : Backend H) where
  open b use {inspect, replace, resolve_tunnel, remove}

  abbrev unavailable_here : Guard → H → After H
  unavailable_here g h = record { guard = g; host = h; failure = some no_backend }

  -- `Replace(luid)` and what is made of its result.
  apply_policy : Guard → H → ℕ → Option VerifiedTunnel → After H
  unfolding pending fail after_native
  apply_policy g h luid t =
      after_native (pending g) (replace h luid).0 (replace h luid).1 (resting blocked true) t

  -- `prepare`, and `Prepare`.
  unfoldable pub prepare : Guard → H → After H
  unfolding apply_policy
  prepare g h = if g.backend then apply_policy g h 0 none else unavailable_here g h

  recover_from : Guard → H → Inspection → After H
  unfolding prepare
  recover_from g h (failed e) = record {
    guard = fail g (native e);
    host = h;
    failure = some (native e);
  }
  recover_from g h (seen false complete) = record {
    guard = confirm g (resting off false) none;
    host = h;
    failure = none;
  }
  recover_from g h (seen true complete) = prepare (set_state g (resting blocked complete)) h

  -- `Recover`.
  unfoldable pub recover : Guard → H → After H
  unfolding recover_from
  recover g h = if g.backend then recover_from g h (inspect h) else unavailable_here g h

  verify_resolved : Guard → H → Text → Text → ℕ × Option Text → After H
  unfolding apply_policy
  verify_resolved g h name address (luid, some e) = record {
    guard = fail g (native e);
    host = h;
    failure = some (native e);
  }
  verify_resolved g h name address (luid, none) =
      if luid == 0
      then record { guard = fail g no_identity; host = h; failure = some no_identity }
      else apply_policy g h luid (some (record { name = name; address = address; luid = luid }))

  -- `VerifyTunnel`.
  unfoldable pub verify_tunnel : Guard → H → Text → Text → Bool → After H
  unfolding verify_resolved
  verify_tunnel g h name address system_proxy =
      if not g.backend
      then unavailable_here g h
      else if system_proxy
      then apply_policy g h 0 (some (record { name = name; address = address; luid = 0 }))
      else verify_resolved g h name address (resolve_tunnel h name address)

  same_identity : ℕ → ℕ × Option Text → Bool
  same_identity luid (found, some e) = false
  same_identity luid (found, none) = found == luid

  tunnel_checked : H → Option VerifiedTunnel → Bool → Bool × Bool
  unfolding same_identity
  tunnel_checked h none replaced = (false, false)
  tunnel_checked h (some t) replaced =
      if t.luid == 0
      then (false, false)
      else if replaced
      then (true, true)
      else (true, same_identity t.luid (resolve_tunnel h t.name t.address))

  -- `TunnelPresent`; the flag says that another operation replaced the tunnel during the call.
  unfoldable pub tunnel_present : Guard → H → Bool → Bool × Bool
  unfolding tunnel_checked
  tunnel_present g h replaced = tunnel_checked h g.tunnel replaced

  -- `Release`.
  unfoldable pub release : Guard → H → After H
  unfolding pending fail after_native
  release g h =
      if g.backend
      then after_native (pending g) (remove h).0 (remove h).1 (resting off false) none
      else record { guard = g; host = h; failure = none }

abbrev is_blocked : Status → Bool
is_blocked blocked = true
is_blocked _ = false

abbrev is_active : Status → Bool
is_active active = true
is_active _ = false

abbrev has_tunnel : Option VerifiedTunnel → Bool
has_tunnel none = false
has_tunnel (some t) = true

abbrev with_status : Guard → Status → Guard
with_status g s = record g {
  state = record {
    status = s;
    enforced = g.state.enforced;
    persistent = g.state.persistent;
    error = g.state.error;
  };
}

-- `Accepted`.
unfoldable pub accepted : Guard → Guard
accepted g =
    if is_blocked g.state.status && g.state.enforced && has_tunnel g.tunnel
    then with_status g active
    else g

-- `Interrupted`.
unfoldable pub interrupted : Guard → Guard
interrupted g = if is_active g.state.status then with_status g blocked else g
