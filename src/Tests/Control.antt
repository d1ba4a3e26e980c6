-- ===== src/Tests/Control.antt =====
-- A profile with a server that the builder can render and one that it cannot.
use tenebra.Prelude.{true, none, List, [], ◌∷◌, Text, codes, text_eq, pos, ◌≡◌, ◌≢◌, refl, In}
use tenebra.Model.{Protocol, vless, hysteria2, Node}
use tenebra.Profile.{Server, Profile}
use tenebra.Profile.Store.{blank}
use tenebra.Fallback.Machine.{Attempt}
use tenebra.Fallback.Strategy.{Strategy}
use tenebra.Singbox.Validate.{is_valid_node, validate_node}
use tenebra.Singbox.Validate.Complete.{Complete, is_valid_node-Complete}
use tenebra.Control.Candidates.{renderable, found, attempt_of, build_candidates}
use tenebra.Control.Candidates.Laws.{IsServerOf, build_candidates-found}

abbrev pub node_of : Protocol → Node
node_of p = record {
  protocol = p;
  name = [];
  server = codes "h";
  port = pos 443;
  uuid = codes "u";
  password = [];
  method = [];
  flow = [];
  security = [];
  alter_id = pos 0;
  tls = none;
  transport = none;
  obfs = none;
  wire_guard = none;
  extra = [];
}

abbrev pub good : Server
good = record { id = codes "g"; node = node_of vless }

abbrev pub bad : Server
bad = record { id = codes "b"; node = node_of hysteria2 }

abbrev pub profile : Profile
profile = record blank { servers = bad ∷ good ∷ [] }

good_valid : is_valid_node good.node ≡ true
unfolding is_valid_node validate_node text_eq
good_valid = refl

is_valid_node-Complete_example : Complete good.node
is_valid_node-Complete_example = is_valid_node-Complete good.node good_valid

good_found : build_candidates profile (codes "") ≡ found (attempt_of good ∷ [])
unfolding build_candidates text_eq is_valid_node validate_node
good_found = refl

good_candidates :
    ((c : Attempt) → In c (attempt_of good ∷ []) → IsServerOf profile c)
    × (codes "" ≢ codes ""
        → (c : Attempt) × (attempt_of good ∷ [] ≡ c ∷ []) × (c.node_id ≡ codes ""))
    × (codes "" ≡ codes ""
        → (s : Server) → In s profile.servers
        → renderable s ≡ true
        → In (attempt_of s) (attempt_of good ∷ []))
good_candidates = build_candidates-found profile (codes "") (attempt_of good ∷ []) good_found

abbrev fragmenting : Strategy
fragmenting = record {
  name = codes "f";
  fingerprint = codes "";
  server_name = codes "";
  fragment = true;
}

abbrev nodes : List Node
nodes = bad.node ∷ good.node ∷ []

abbrev ids : List Text
ids = codes "b" ∷ codes "g" ∷ []
