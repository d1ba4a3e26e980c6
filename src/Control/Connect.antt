-- ===== src/Control/Connect.antt =====
-- `startConnect`, `teardown` and `pingCandidates` of core/control/connect.go, with `dropCandidate`
-- of health.go: from a request to the walk. The caller holds `connMu`, so nothing else tears the
-- connection down meanwhile. What other components decide is given: the tun with an address that
-- is free, and the measured round trips. Log lines are left out.
pub mod Launched
pub mod Ends
use tenebra.Prelude.{
  ℕ, ◌+◌, Bool, true, false, not, ◌&&◌, Option, none, some, List, [], ◌∷◌, ℤ, Text, codes, text_eq,
  keep, if◌then◌else◌,
}
use tenebra.Model.{Multihop}
use tenebra.Profile.{Profile}
use tenebra.Protection.Guard.{Failure, Backend, After, interrupted}
use tenebra.Protection.Dns.{Parsers}
use tenebra.Routing.Options.{Options}
use tenebra.Fallback.LastGood.{LastGood}
use tenebra.Fallback.Machine.{Attempt, Machine, new, new_by_latency, default_order}
use tenebra.Control.Candidates.{
  Candidates, found, unsupported_protocol, node_not_found, no_usable_servers, build_candidates,
}
use tenebra.Control.Tags.{MultihopError, validate_multihop_profile}
use tenebra.Control.Protect.{Tun, prepare_protection}
use tenebra.Control.Proxy.{disarm_system_proxy}
use tenebra.Control.State.{Phase, idle, connecting, failed, Problem, system_proxy, Walk, set_state}

-- What a connection reads of the daemon, and changes.
pub record Daemon (S H : Type 0) : Type 0 where
  pub generation : ℕ
  pub routing : Options
  pub tun : Tun
  pub multihop : Multihop
  pub last_good : Option S
  pub walk : Walk S H

-- What the other components and the operating system answer.
pub record Surroundings : Type 0 where
  pub parsers : Parsers
  pub free_tun : Tun → Tun
  -- The round trips to the candidates that answer.
  pub ping : List Attempt → List (Text × ℤ)
  pub restore_proxy : Option Text

-- Why a connection is refused.
pub data Refusal : Type 0 where
  bad_multihop : MultihopError → Refusal
  no_alternative_exit no_alternative_node : Refusal
  no_candidates : Candidates → Refusal
  protection_failed : Failure → Refusal
  cleanup_failed : Text → Refusal

-- What is known of an attempt to connect: the daemon, and why it is refused, if it is.
pub record Started (S H : Type 0) : Type 0 where
  pub daemon : Daemon S H
  pub refusal : Option Refusal

abbrev pub answer : {S H : Type 0} → Daemon S H → Option Refusal → Started S H
answer d r = record { daemon = d; refusal = r }

-- `dropCandidate`.
unfoldable pub drop_candidate : List Attempt → Text → List Attempt
drop_candidate cands id = keep (λ (a : Attempt). not (text_eq a.node_id id)) cands

-- The exit that the request names, or that of the chain.
unfoldable pub effective_node : Multihop → Text → Text
effective_node mh explicit = if mh.enabled then mh.exit_id else explicit

abbrev pub is_avoiding : Text → Text → Bool
is_avoiding node avoid = text_eq node (codes "") && not (text_eq avoid (codes ""))

abbrev pub kept_candidates : Text → Text → List Attempt → List Attempt
kept_candidates node avoid cands =
    if is_avoiding node avoid then drop_candidate cands avoid else cands

abbrev is_empty : List Attempt → Bool
is_empty [] = true
is_empty (a ∷ as') = false

module _ {S H : Type 0} where
  after_cleanup : Daemon S H → Walk S H → Phase → Text → Text → Option Text → Started S H
  unfolding set_state
  after_cleanup d w phase profile node none =
      answer (record d { walk = set_state phase profile node none w }) none
  after_cleanup d w phase profile node (some e) =
      answer (record d { walk = set_state failed (codes "") (codes "") (some (system_proxy e)) w })
        (some (cleanup_failed e))

  -- The walk that is stopped, and the system proxy given back.
  unfoldable pub torn_down : Surroundings → Walk S H → Walk S H
  torn_down env w = record w {
    attempts = none;
    live = none;
    running = false;
    guard = interrupted w.guard;
    proxy = (disarm_system_proxy w.proxy env.restore_proxy).proxy;
  }

  -- `teardown`: an idle state names no profile and no node. The goroutines of the old connection
  -- have ended when it returns.
  unfoldable pub teardown : Surroundings → Phase → Text → Text → Daemon S H → Started S H
  unfolding after_cleanup torn_down
  teardown env phase profile node d =
      after_cleanup (record d { generation = d.generation + 1 }) (torn_down env d.walk) phase
        profile node (disarm_system_proxy d.walk.proxy env.restore_proxy).failure

module _ {S H : Type 0} ⦃lg : LastGood S⦄ (b : Backend H) (env : Surroundings) where
  -- The order of the candidates: by latency for `auto` without a node, else by preference.
  unfoldable pub plan_order : Daemon S H → Profile → Text → Bool → List Attempt → Machine S
  plan_order d p explicit auto cands =
      if auto && text_eq explicit (codes "")
      then new_by_latency p.id cands (env.ping cands) d.last_good
      else new p.id cands default_order d.last_good

  -- The new generation, and the published phase; a cleanup that failed ends the attempt.
  launch : Profile → Machine S → Daemon S H → Option Refusal → Started S H
  unfolding set_state
  launch p m d (some r) = answer d (some r)
  launch p m d none =
      answer
        (record d {
          generation = d.generation + 1;
          walk = set_state connecting p.id (codes "") none (record d.walk { machine = m });
        })
        none

  replace_connection : Profile → Machine S → Daemon S H → Option Failure → Started S H
  unfolding launch
  replace_connection p m d (some f) = answer d (some (protection_failed f))
  replace_connection p m d none =
      let t = teardown env connecting p.id (codes "") d in launch p m t.daemon t.refusal

  -- The host is locked down before a candidate is measured and a process replaced.
  lock_down : Profile → Text → Bool → List Attempt → Daemon S H → Started S H
  unfolding replace_connection
  lock_down p node auto cands d =
      let r =
        prepare_protection b env.parsers d.routing.kill_switch d.routing d.walk.guard d.walk.host in
      let d1 = record d { walk = record d.walk { guard = r.guard; host = r.host } } in
      replace_connection p (plan_order d1 p node auto cands) d1 r.failure

  with_candidates : Profile → Text → Bool → Text → Daemon S H → Candidates → Started S H
  unfolding lock_down
  with_candidates p node auto avoid d (found cands) =
      let d1 = record d { tun = env.free_tun d.tun } in
      let kept = kept_candidates node avoid cands in
      if is_avoiding node avoid && is_empty kept
      then answer d1 (some no_alternative_node)
      else lock_down p node auto kept d1
  with_candidates p node auto avoid d unsupported_protocol =
      answer d (some (no_candidates unsupported_protocol))
  with_candidates p node auto avoid d node_not_found =
      answer d (some (no_candidates node_not_found))
  with_candidates p node auto avoid d no_usable_servers =
      answer d (some (no_candidates no_usable_servers))

  with_chain : Profile → Text → Bool → Text → Daemon S H → Option MultihopError → Started S H
  unfolding with_candidates
  with_chain p explicit auto avoid d (some e) = answer d (some (bad_multihop e))
  with_chain p explicit auto avoid d none =
      let node = effective_node d.multihop explicit in
      if d.multihop.enabled && text_eq avoid d.multihop.exit_id
      then answer d (some no_alternative_exit)
      else with_candidates p node auto avoid d (build_candidates p node)

  -- `startConnect`, up to the launch of the walk. What it hands to the walk of the request, to be
  -- remembered, is part of the walk's plan.
  unfoldable pub start_connect : Profile → Text → Bool → Text → Daemon S H → Started S H
  unfolding with_chain
  start_connect p explicit auto avoid d =
      with_chain p explicit auto avoid d
        (if d.multihop.enabled then validate_multihop_profile p d.multihop else none)
