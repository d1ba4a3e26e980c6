-- ===== src/Control/Connect/Launched.antt =====
-- What `startConnect` of core/control/connect.go leaves, for each answer.
use mathlib.Core.List.{Perm}
use tenebra.Prelude.{
  ◌+◌, Bool, false, ◌&&◌, Option, none, some, List, Text, codes, text_eq, ◌≡◌, ◌≢◌, ◌⊎◌, inl, inr,
  refl, arith, if◌then◌else◌, if-ind,
}
use tenebra.Profile.{Profile}
use tenebra.Protection.Guard.{Failure, Backend}
use tenebra.Fallback.LastGood.{LastGood}
use tenebra.Fallback.Machine.{Attempt, Machine, default_order}
use tenebra.Fallback.Machine.Order.{new-perm, new_by_latency-perm}
use tenebra.Control.Candidates.{
  Candidates, found, unsupported_protocol, node_not_found, no_usable_servers, build_candidates,
}
use tenebra.Control.Protect.{prepare_protection}
use tenebra.Control.Proxy.{disarm_system_proxy}
use tenebra.Control.State.{connecting, failed, Walk, set_state}
use tenebra.Control.Tags.{MultihopError, validate_multihop_profile}
use tenebra.Control.Connect.{
  Daemon, Surroundings, Refusal, cleanup_failed, no_candidates, Started, effective_node,
  kept_candidates, is_avoiding, is_empty, torn_down, teardown, after_cleanup, plan_order, launch,
  replace_connection, lock_down, with_candidates, with_chain, start_connect, bad_multihop,
  no_alternative_exit, no_alternative_node, protection_failed,
}

module _ {S H : Type 0} where
  -- The connection of the daemon is as it was: only the tun's address, the guard and the host may
  -- have changed.
  pub record Untouched (d d' : Daemon S H) : Type 0 where
    pub generation : d'.generation ≡ d.generation
    pub running : d'.walk.running ≡ d.walk.running
    pub status : d'.walk.status ≡ d.walk.status
    pub machine : d'.walk.machine ≡ d.walk.machine
    pub live : d'.walk.live ≡ d.walk.live
    pub proxy : d'.walk.proxy ≡ d.walk.proxy

  -- A walk over the candidates is about to begin.
  pub record IsLaunched (p : Profile) (cands : List Attempt) (d d' : Daemon S H) : Type 0 where
    pub running : d'.walk.running ≡ false
    pub phase : d'.walk.status.phase ≡ connecting
    pub profile : d'.walk.status.profile ≡ p.id
    pub generation : d'.generation ≡ d.generation + 2
    pub cursor : d'.walk.machine.cursor ≡ 0
    pub order : Perm d'.walk.machine.order cands

module _ {S H : Type 0} ⦃lg : LastGood S⦄ (b : Backend H) (env : Surroundings) where
  -- What each answer leaves.
  abbrev pub Answered : Profile → List Attempt → Daemon S H → Daemon S H → Option Refusal → Type 0
  Answered p cands d d' none = IsLaunched p cands d d'
  Answered p cands d d' (some (cleanup_failed e)) =
      (d'.walk.running ≡ false) × (d'.walk.status.phase ≡ failed)
  Answered p cands d d' (some (bad_multihop e)) = Untouched d d'
  Answered p cands d d' (some no_alternative_exit) = Untouched d d'
  Answered p cands d d' (some no_alternative_node) = Untouched d d'
  Answered p cands d d' (some (no_candidates c)) = Untouched d d'
  Answered p cands d d' (some (protection_failed f)) = Untouched d d'

  plan_order-perm :
      (d : Daemon S H) (p : Profile) (node : Text) (auto : Bool) (cands : List Attempt)
      → Perm (plan_order b env d p node auto cands).order cands
        × ((plan_order b env d p node auto cands).cursor ≡ 0)
  unfolding plan_order
  plan_order-perm d p node auto cands =
      if-ind (λ (m : Machine S). Perm m.order cands × (m.cursor ≡ 0))
        (auto && text_eq node (codes "")) _ _
        (λ _. new_by_latency-perm p.id cands (env.ping cands) d.last_good)
        (λ _. new-perm p.id cands default_order d.last_good)

  launched :
      (p : Profile) (m : Machine S) (cands : List Attempt) (d0 d : Daemon S H) (w : Walk S H)
      (e : Option Text)
      → d.generation ≡ d0.generation
      → w.running ≡ false
      → Perm m.order cands
      → m.cursor ≡ 0
      → let t =
          after_cleanup
            (record d { generation = d.generation + 1 })
            w
            connecting
            p.id
            (codes "")
            e in
        let r = launch b env p m t.daemon t.refusal in Answered p cands d0 r.daemon r.refusal
  unfolding launch after_cleanup set_state
  launched p m cands d0 d w none g off perm c = record {
    running = off;
    phase = refl;
    profile = refl;
    generation = omega (arith, g);
    cursor = c;
    order = perm;
  }
  launched p m cands d0 d w (some e) g off perm c = (off, refl)

  replace-Answered :
      (p : Profile) (m : Machine S) (cands : List Attempt) (d0 d : Daemon S H) (f : Option Failure)
      → Untouched d0 d
      → Perm m.order cands
      → m.cursor ≡ 0
      → let r = replace_connection b env p m d f in Answered p cands d0 r.daemon r.refusal
  unfolding replace_connection teardown
  replace-Answered p m cands d0 d (some f) u perm c = u
  replace-Answered p m cands d0 d none u perm c =
      launched p m cands d0 d (torn_down env d.walk)
        (disarm_system_proxy d.walk.proxy env.restore_proxy).failure u.generation refl perm c

  lock_down-Answered :
      (p : Profile) (node : Text) (auto : Bool) (cands : List Attempt) (d0 d : Daemon S H)
      → Untouched d0 d
      → let r = lock_down b env p node auto cands d in Answered p cands d0 r.daemon r.refusal
  unfolding lock_down
  lock_down-Answered p node auto cands d0 d u =
      let r =
        prepare_protection b env.parsers d.routing.kill_switch d.routing d.walk.guard d.walk.host in
      let d1 = record d { walk = record d.walk { guard = r.guard; host = r.host } } in
      let (perm, c) = plan_order-perm d1 p node auto cands in
      replace-Answered p (plan_order b env d1 p node auto cands) cands d0 d1 r.failure
        (record {
          generation = u.generation;
          running = u.running;
          status = u.status;
          machine = u.machine;
          live = u.live;
          proxy = u.proxy;
        })
        perm c

  same : (d : Daemon S H) → Untouched d d
  same d = record {
    generation = refl;
    running = refl;
    status = refl;
    machine = refl;
    live = refl;
    proxy = refl;
  }

  -- Some candidates, unless the answer is a refusal that leaves the connection as it was.
  abbrev pub Outcome : Profile → Text → Text → Daemon S H → Started S H → Type 0
  Outcome p explicit avoid d r =
      (Untouched d r.daemon × (r.refusal ≢ none))
      ⊎ ((cands : List Attempt) × (build_candidates p (effective_node d.multihop explicit)
            ≡ found cands)
          × Answered p (kept_candidates (effective_node d.multihop explicit) avoid cands) d r.daemon
              r.refusal)

  with_candidates-Outcome :
      (p : Profile) (explicit : Text) (auto : Bool) (avoid : Text) (d : Daemon S H) (c : Candidates)
      → build_candidates p (effective_node d.multihop explicit) ≡ c
      → Outcome p explicit avoid d
          (with_candidates b env p (effective_node d.multihop explicit) auto avoid d c)
  unfolding with_candidates
  with_candidates-Outcome p explicit auto avoid d unsupported_protocol e = inl (same d, λ h. cc)
  with_candidates-Outcome p explicit auto avoid d node_not_found e = inl (same d, λ h. cc)
  with_candidates-Outcome p explicit auto avoid d no_usable_servers e = inl (same d, λ h. cc)
  with_candidates-Outcome p explicit auto avoid d (found cands) e =
      let node = effective_node d.multihop explicit in
      let kept = kept_candidates node avoid cands in
      let d1 = record d { tun = env.free_tun d.tun } in
      let moved : Untouched d d1 = record {
        generation = refl;
        running = refl;
        status = refl;
        machine = refl;
        live = refl;
        proxy = refl;
      } in
      if-ind (λ (r : Started S H). Outcome p explicit avoid d r)
        (is_avoiding node avoid && is_empty kept) _ _ (λ _. inl (moved, λ h. cc))
        (λ _. inr (cands, e, lock_down-Answered p node auto kept d d1 moved))

  with_chain-Outcome :
      (p : Profile) (explicit : Text) (auto : Bool) (avoid : Text) (d : Daemon S H)
      (c : Option MultihopError)
      → Outcome p explicit avoid d (with_chain b env p explicit auto avoid d c)
  unfolding with_chain
  with_chain-Outcome p explicit auto avoid d (some e) = inl (same d, λ h. cc)
  with_chain-Outcome p explicit auto avoid d none =
      if-ind (λ (r : Started S H). Outcome p explicit avoid d r)
        (d.multihop.enabled && text_eq avoid d.multihop.exit_id) _ _ (λ _. inl (same d, λ h. cc))
        (λ _. with_candidates-Outcome p explicit auto avoid d _ refl)

  pub start_connect-Outcome :
      (p : Profile) (explicit : Text) (auto : Bool) (avoid : Text) (d : Daemon S H)
      → Outcome p explicit avoid d (start_connect b env p explicit auto avoid d)
  unfolding start_connect
  start_connect-Outcome p explicit auto avoid d =
      with_chain-Outcome p explicit auto avoid d
        (if d.multihop.enabled then validate_multihop_profile p d.multihop else none)
