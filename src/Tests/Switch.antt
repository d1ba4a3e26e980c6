-- ===== src/Tests/Switch.antt =====
-- A live switch between two servers, and a move away from the first.
use tenebra.Prelude.{
  true, false, none, some, [], ◌∷◌, codes, text_eq, lookup, insert, pos, ◌≡◌, refl,
}
use tenebra.Prelude.Sort.{sort_stable}
use tenebra.Model.{vless}
use tenebra.Profile.{Profile}
use tenebra.Profile.Store.{blank}
use tenebra.Protection.Guard.{State, off}
use tenebra.Fallback.LastGood.{new_mem_last_good, get, set}
use tenebra.Nodecheck.{rank, best, is_ok, usable}
use tenebra.Control.State.{up}
use tenebra.Control.Tags.{tag_for}
use tenebra.Control.Recovery.{mark, is_cooling, allow_auto_recovery}
use tenebra.Control.Switch.{
  LiveConfig, has_member, Line, steered, Steering, live_switch_target, confirm_switch, switch_node,
}
use tenebra.Control.Switch.Kept.{Names, IsHonest, Kept, switch_node-Kept}
use tenebra.Control.Switch.Scan.{
  good_of, measure, eligible, answered, scan_candidates, measure_candidates, scan_for_exit, moved,
  Moment, allow_auto_switch, auto_switch_away,
}
use tenebra.Control.Switch.Scan.Moved.{Settled, auto_switch_away-Settled}
use tenebra.Tests.Control.{node_of}
use tenebra.Tests.Recovery.{limits}

abbrev profile : Profile
profile = record blank {
  id = codes "p";
  servers =
      record { id = codes "a"; node = node_of vless }
      ∷ record { id = codes "b"; node = node_of vless }
      ∷ [];
}

abbrev config : LiveConfig
config = record {
  generation = 1;
  profile_id = codes "p";
  tag_of = (codes "a", codes "node") ∷ (codes "b", codes "node-2") ∷ [];
  default = codes "node";
  members = codes "node" ∷ codes "node-2" ∷ [];
}

abbrev calm : State
calm = record { status = off; enforced = false; persistent = false; error = none }

abbrev line : Line
line = record {
  generation = 1;
  status = record {
    phase = up;
    profile = codes "p";
    node = codes "a";
    problem = none;
    protection = calm;
  };
  live = some config;
  selected = codes "node";
  last_good = some new_mem_last_good;
  last_conn = (codes "p", codes "");
  attempts = none;
  events = [];
  recovery = record { switches = []; degraded_at = [] };
  auto_failover = true;
}

-- The second probe goes through.
abbrev steering : Steering
steering = record { put = steered; probes = false ∷ true ∷ []; undo = steered }

abbrev moment : Moment
moment = record {
  checked = 1;
  gated = 1;
  scanned = 1;
  rechecked = 2;
  recorded = 3;
  meanwhile = λ w. w;
  lock_free = true;
  steering = steering;
  stored = some profile;
  protection = calm;
  survey = record {
    targets = codes "t" ∷ [];
    limit = 6;
    retry_after = 10;
    via = λ tag target. answered (pos 20);
    stored = some profile;
  };
}

line-Names : Names line
unfolding lookup text_eq
line-Names = record { config = config; live = refl; tag = refl; named = refl }

honest : IsHonest steering
honest = (λ e. cc, refl)

second_took :
    (switch_node steering (some profile) calm (codes "p") (codes "b") true line).took ≡ true
unfolding switch_node live_switch_target confirm_switch tag_for lookup has_member text_eq
second_took = refl

away_moved : (auto_switch_away limits moment 1 (codes "p") (codes "a") line).result ≡ moved
unfolding auto_switch_away allow_auto_recovery is_cooling allow_auto_switch scan_for_exit
    scan_candidates eligible measure_candidates best is_ok usable switch_node live_switch_target
    confirm_switch tag_for lookup insert has_member text_eq sort_stable new_mem_last_good get set
    rank good_of mark measure
away_moved = refl

switch_node-Kept_example :
    Kept steering
      (codes "p")
      (codes "b")
      line
      (switch_node steering (some profile) calm (codes "p") (codes "b") true line)
switch_node-Kept_example =
    switch_node-Kept steering (some profile) calm (codes "p") (codes "b") true line line-Names
      honest

auto_switch_away-Settled_example :
    Settled limits moment 1
      (codes "p")
      (codes "a")
      line
      (auto_switch_away limits moment 1 (codes "p") (codes "a") line)
auto_switch_away-Settled_example =
    auto_switch_away-Settled limits moment 1 (codes "p") (codes "a") line line-Names (λ w n. n)
      honest
