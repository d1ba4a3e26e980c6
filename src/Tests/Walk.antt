-- ===== src/Tests/Walk.antt =====
-- A walk over two candidates: the first does not start, and the second works.
use tenebra.Prelude.{
  ℕ, suc, length, Bool, true, false, none, some, [], ◌∷◌, Text, codes, text_eq, ◌≡◌, ◌≢◌, refl,
  arith, if◌then◌else◌, Option,
}
use tenebra.Model.{vless, hysteria2}
use tenebra.Protection.Dns.{validate_dns}
use tenebra.Protection.Guard.{prepare, VerifiedTunnel, active, new, resting, blocked}
use tenebra.Fallback.LastGood.{MemLastGood, new_mem_last_good, mem_last_good}
use tenebra.Fallback.Machine.{default_order}
use tenebra.Control.Probe.{
  Round, answered, no_answer, retry, probe_loop, probe_round, probe_until_up,
}
use tenebra.Control.Probe.Measured.{Reached, probe_until_up-Reached}
use tenebra.Control.Protect.{is_system_proxy, prepare_protection}
use tenebra.Control.State.{Env, Plan, Walk, started, refused, connecting, up}
use tenebra.Control.Success.Steady.{IsSteady, IsIdle}
use tenebra.Control.Cascade.Steady.{IsWorking}
use tenebra.Control.Walk.{Ended, ended_connected, run_fallback}
use tenebra.Control.Walk.Ends.{Leftover, run_fallback-Leftover}
use tenebra.Control.Walk.Protected.{run_fallback_protected}
use tenebra.Control.Walk.Connects.{run_fallback_connects}
use tenebra.Control.Connect.{Surroundings, Daemon, effective_node, teardown, start_connect}
use tenebra.Control.Connect.Ends.{start_connect_ends}
use tenebra.Control.Candidates.{build_candidates}
use tenebra.Singbox.Validate.{is_valid_node, validate_node}
use tenebra.Control.Proxy.{disarm_system_proxy}
use tenebra.Tests.Control.{profile, good}
use tenebra.Tests.Protection.{host_backend}
use tenebra.Tests.Fallback.{attempt}
use tenebra.Tests.Route.{armed}

abbrev slow : Round
slow = record {
  current = true;
  exited = false;
  selected = true;
  select_wait = retry;
  answer = no_answer 9;
  still_current = true;
  probe_wait = retry;
}

abbrev quick : Round
quick = record slow { answer = answered }

comes_up : (probe_until_up 4 true false (slow ∷ quick ∷ [])).up ≡ true
unfolding probe_until_up probe_loop probe_round
comes_up = refl

probe_until_up-Reached_example : Reached (slow ∷ quick ∷ []) false
probe_until_up-Reached_example = probe_until_up-Reached 4 true false (slow ∷ quick ∷ []) comes_up

abbrev env : Bool → Env
env kill = record {
  cancelled = λ t. false;
  current = λ t. true;
  kill_switch = λ t. kill;
  build = λ nodes tag. some (record { json = tag; default = tag; members = tag ∷ [] });
  start = λ t json. if text_eq json (codes "b") then refused false (codes "exec") else started;
  warm = λ t json. true;
  rounds = λ t json. slow ∷ quick ∷ [];
  dial = λ t host port. none;
  proxy = λ t. record { restore = none; enable = none; rollback = none };
  parsers = record {
    parse_url = λ s. some (record {
      user = false;
      fragment = codes "";
      scheme = codes "https";
      hostname = codes "77.88.8.8";
      path = codes "/dns-query";
      raw_query = codes "";
    });
    parse_addr = λ s. some (record { zone = codes ""; unspecified = false; multicast = false });
  };
  default_tun_name = codes "tun0";
  probe_timeout = 4;
}

abbrev plan : Plan
plan = record {
  profile_id = codes "p";
  nodes = [];
  node_ids = [];
  tag = λ id. id;
  options = armed;
  tun = record {
    mode = codes "tun";
    interface_name = codes "";
    address = codes "172.19.0.1/30";
    mixed_host_port = codes "";
  };
  remember = true;
  requested_node = codes "";
}

abbrev start_walk : Walk MemLastGood (Option ℕ)
start_walk = record {
  clock = 0;
  machine = record {
    profile_id = codes "p";
    last_good = some new_mem_last_good;
    order = attempt (codes "b") vless ∷ attempt (codes "a") hysteria2 ∷ [];
    cursor = 0;
    candidates = attempt (codes "b") vless ∷ attempt (codes "a") hysteria2 ∷ [];
    pref = default_order;
    by_latency = false;
    latency = [];
  };
  items = [];
  attempts = none;
  running = false;
  status = record {
    phase = connecting;
    profile = codes "p";
    node = codes "";
    problem = none;
    protection = resting blocked true;
  };
  events = [];
  guard = new true;
  host = none;
  proxy = record { armed = false; applied = false; target = [] };
  live = none;
  last_conn = ([], []);
}

run_fallback-Leftover_example :
    (r : Ended MemLastGood (Option ℕ)) × (run_fallback host_backend (env true) plan 3 start_walk
      ≡ some r)
    × Leftover host_backend (env true) plan start_walk r.end r.walk
run_fallback-Leftover_example =
    run_fallback-Leftover host_backend (env true) plan 3 start_walk refl (omega arith) (omega arith)

modern : (new true).legacy_engine_only ≡ false
unfolding new
modern = refl

run_fallback_protected_example :
    (r : Ended MemLastGood (Option ℕ)) × (run_fallback host_backend (env true) plan 3 start_walk
      ≡ some r)
    × (r.end ≡ ended_connected
        → (r.walk.status.phase ≡ up)
          × (r.walk.status.protection.status ≡ active)
          × ((t : VerifiedTunnel) × (r.walk.guard.tunnel ≡ some t)
              × (host_backend.policy r.walk.host ≡ some t.luid)))
run_fallback_protected_example =
    run_fallback_protected host_backend (env true) plan 3 start_walk refl (omega arith)
      (omega arith) modern (λ t. refl)

not_local :
    (c : Bool) (e : Text) → (if c then refused false (codes "exec") else started) ≢ refused true e
not_local true e h = cc
not_local false e h = cc

steady : IsSteady (env false) plan
unfolding is_system_proxy text_eq
steady = record {
  running = λ t. refl;
  current = λ t. refl;
  no_switch = λ t. refl;
  no_proxy = refl;
  no_local = λ t json e. not_local (text_eq json (codes "b")) e;
}

idle : IsIdle (new true)
unfolding new
idle = (refl, refl)

working : IsWorking (env false) plan (attempt (codes "a") hysteria2)
unfolding text_eq probe_until_up probe_loop probe_round
working = (
  record { json = codes "a"; default = codes "a"; members = codes "a" ∷ [] },
  refl,
  λ t. refl,
  λ t. refl,
)

run_fallback_connects_example :
    (r : Ended MemLastGood (Option ℕ)) × (run_fallback host_backend (env false) plan 3 start_walk
      ≡ some r)
    × (r.end ≡ ended_connected)
run_fallback_connects_example =
    run_fallback_connects host_backend (env false) plan steady 3 start_walk 1
      (attempt (codes "a") hysteria2) refl idle (omega arith) refl working (omega arith)

-- The daemon with a running connection, and a request for a server.
abbrev around : Surroundings
around = record {
  parsers = (env true).parsers;
  free_tun = λ t. t;
  ping = λ cands. [];
  restore_proxy = none;
}

abbrev daemon : Daemon MemLastGood (Option ℕ)
daemon = record {
  generation = 4;
  routing = armed;
  tun = plan.tun;
  multihop = record { enabled = false; entry_id = []; exit_id = [] };
  last_good = some new_mem_last_good;
  walk = record start_walk { running = true };
}

launches :
    (start_connect host_backend around profile good.id false (codes "") daemon).refusal ≡ none
unfolding start_connect build_candidates text_eq effective_node is_valid_node validate_node
    prepare_protection new validate_dns prepare teardown disarm_system_proxy
launches = refl

start_connect_ends_example :
    let w =
      (start_connect host_backend around profile good.id false (codes "") daemon).daemon.walk in
    (e : Ended MemLastGood (Option ℕ)) × (run_fallback host_backend
        (env true)
        plan
        (suc (length w.machine.order))
        w
      ≡ some e)
    × Leftover host_backend (env true) plan w e.end e.walk
start_connect_ends_example =
    start_connect_ends host_backend around profile good.id false (codes "") daemon (env true) plan
      launches
