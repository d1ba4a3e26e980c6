-- ===== src/Tests/Fallback.antt =====
-- Three candidates of three protocols.
use mathlib.Core.List.{Perm}
use tenebra.Prelude.{
  ℕ, ◌≤◌, ◌<◌, Bool, true, false, none, some, List, [], ◌∷◌, ◌++◌, Text, codes, text_eq, pos, ◌≡◌,
  ◌≢◌, ◌↔◌, refl, ◌||◌, eq_int, any, keep, lookup, insert, length, arith,
}
use tenebra.Prelude.Sort.{All, IsSorted, sort_stable}
use tenebra.Model.{Protocol, vless, hysteria2, amnezia_wg, Tls, Node}
use tenebra.Fallback.Classify.{DialError, Dial, classify_attempt_failure, censored, dead}
use tenebra.Fallback.Classify.Verdict.{
  classify_attempt_failure-censored, classify_attempt_failure-dead,
}
use tenebra.Fallback.Strategy.{Strategy, apply_to}
use tenebra.Fallback.Strategy.Laws.{Reshaped, apply_to_scope}
use tenebra.Fallback.LastGood.{MemLastGood, new_mem_last_good, set, get, mem_last_good}
use tenebra.Fallback.Machine.{
  Attempt, Machine, default_order, lead, rebuild, last_index, next, success, exhausted, rtt_of,
  index_of, indexed, order_by_preference, less_by_preference, rank,
}
use tenebra.Fallback.Machine.Preference.{
  by_rank, has_rank, without, rebuild_by_preference, next-success,
}
use tenebra.Fallback.Machine.Latency.{by_rtt, rebuild_by_latency-IsSorted, rebuild_by_latency_tie}
use tenebra.Fallback.Machine.Walk.{walk, walk-perm}

abbrev node_of : Protocol → Node
node_of p = record {
  protocol = p;
  name = [];
  server = codes "h";
  port = pos 443;
  uuid = [];
  password = [];
  method = [];
  flow = [];
  security = [];
  alter_id = pos 0;
  tls = none;
  transport = none;
  obfs = none;
  wire_guard = none;
  extra = [];
}

abbrev pub attempt : Text → Protocol → Attempt
attempt id p = record { node_id = id; node = node_of p }

abbrev first : Attempt
first = attempt (codes "a") amnezia_wg

abbrev second : Attempt
second = attempt (codes "b") vless

abbrev third : Attempt
third = attempt (codes "c") hysteria2

abbrev memory : MemLastGood
memory = set new_mem_last_good (codes "p") (codes "c")

abbrev machine : Machine MemLastGood
machine = record {
  profile_id = codes "p";
  last_good = some memory;
  order = [];
  cursor = 0;
  candidates = first ∷ second ∷ third ∷ [];
  pref = default_order;
  by_latency = false;
  latency = [];
}

abbrev timed : Machine MemLastGood
timed = record machine {
  by_latency = true;
  latency = (codes "a", pos 30) ∷ (codes "c", pos 40) ∷ (codes "b", pos 40) ∷ [];
}

rebuild_by_preference_example :
    (rest : List Attempt) × ((rebuild machine).order
      ≡ lead (last_index machine) machine.candidates ++ rest)
    × IsSorted (by_rank machine.pref) rest
    × ((r : ℕ)
        → keep (has_rank machine.pref r) rest
          ≡ keep (has_rank machine.pref r) (without (last_index machine) machine.candidates))
rebuild_by_preference_example = rebuild_by_preference machine refl

second_known : any (λ c. text_eq c.node_id second.node_id) machine.candidates ≡ true
unfolding text_eq
second_known = refl

second_leads :
    (b : Attempt) × (next (success machine second) ≡ some b) × (b.node_id ≡ second.node_id)
second_leads = next-success machine memory second refl refl second_known

timed-IsSorted : IsSorted (by_rtt timed.latency) (rebuild timed).order
timed-IsSorted = rebuild_by_latency-IsSorted timed refl

third_last : last_index timed ≡ some 2
unfolding last_index set text_eq get lookup insert new_mem_last_good index_of
third_last = refl

third_wins_tie :
    (before : List Attempt) × (after : List Attempt) × ((rebuild timed).order
      ≡ before ++ third ∷ after)
    × All (λ b. rtt_of timed.latency b < rtt_of timed.latency third) before
third_wins_tie = rebuild_by_latency_tie timed 2 third refl third_last refl

three : length (rebuild machine).order ≤ 3
unfolding rebuild last_index set get lookup insert new_mem_last_good text_eq index_of
    order_by_preference lead sort_stable indexed less_by_preference rank
three = omega arith

walk-perm_example :
    Perm (walk 3 (rebuild machine)).0 machine.candidates
    × (exhausted (walk 3 (rebuild machine)).1 ≡ true)
walk-perm_example = walk-perm 3 machine three

abbrev answers : Dial
answers = λ server port. none

abbrev refusal : DialError
refusal = record {
  conn_refused = true;
  host_unreachable = false;
  net_unreachable = false;
  dns = false;
  deadline_exceeded = false;
  net_timeout = false;
}

abbrev refuses : Dial
refuses = λ server port. some (refusal, false)

censored_dial : (classify_attempt_failure answers (node_of vless) true ≡ censored) ↔ (
    ((node_of vless).server ≢ codes "")
    × (eq_int (node_of vless).port (pos 0) ≡ false)
    × (answers (node_of vless).server (node_of vless).port ≡ none)
    × (true ≡ true))
censored_dial = classify_attempt_failure-censored answers (node_of vless) true

refused_dial : (classify_attempt_failure refuses (node_of vless) false ≡ dead) ↔ (
    ((node_of vless).server ≢ codes "")
    × (eq_int (node_of vless).port (pos 0) ≡ false)
    × ((e : DialError) × (ctx_err : Bool) × (refuses (node_of vless).server (node_of vless).port
          ≡ some (e, ctx_err))
        × ((e.conn_refused || e.host_unreachable || e.net_unreachable || e.dns) ≡ true)))
refused_dial = classify_attempt_failure-dead refuses (node_of vless) false

abbrev firefox : Strategy
firefox = record {
  name = codes "f";
  fingerprint = codes "firefox";
  server_name = codes "";
  fragment = false;
}

abbrev disguised : Strategy
disguised = record firefox { name = codes "d"; server_name = codes "x.net" }

abbrev plain_tls : Tls
plain_tls = record {
  enabled = true;
  server_name = codes "h";
  insecure = false;
  alpn = [];
  fingerprint = codes "chrome";
  fragment = false;
  reality = none;
}

abbrev tls_node : Node
tls_node = record (node_of vless) { tls = some plain_tls }

firefox_scope :
    (apply_to firefox tls_node ≡ record tls_node { tls = (apply_to firefox tls_node).tls })
    × (tls_node.tls ≡ none → (apply_to firefox tls_node).tls ≡ none)
    × ((t : Tls)
        → tls_node.tls ≡ some t
        → (t' : Tls) × ((apply_to firefox tls_node).tls ≡ some t') × Reshaped firefox t t')
firefox_scope = apply_to_scope firefox tls_node
