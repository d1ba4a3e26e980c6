-- ===== src/Control/Candidates/Laws.antt =====
-- `buildCandidates` and `applyStrategyToNodes` of core/control/daemon.go.
use tenebra.Prelude.{
  In-map, ℕ, zero, suc, true, Bool-cases, Option, none, some, List, [], ◌∷◌, Text, codes, text_eq,
  text_eq_iff, map, keep, get_elem?, In, In-keep, keep-In, ◌≡◌, ◌≢◌, refl, inl, inr, ap,
  if◌then◌else◌, arith,
}
use tenebra.Model.{Node}
use tenebra.Profile.{Server, Profile}
use tenebra.Fallback.Machine.{Attempt}
use tenebra.Fallback.Strategy.{Strategy, is_default, apply_to}
use tenebra.Fallback.Strategy.Laws.{apply_to-default}
use tenebra.Control.Candidates.{
  renderable, found, attempt_of, only_explicit, some_found, build_candidates, reshape_target,
  apply_strategy_to_nodes,
}

map-In : (ss : List Server) (s : Server) → In s ss → In (attempt_of s) (map attempt_of ss)
map-In [] s i = absurd i
map-In (x ∷ ss) s (inl e) = inl (ap attempt_of e)
map-In (x ∷ ss) s (inr i) = inr (map-In ss s i)

-- A candidate is a renderable server of the profile.
pub IsServerOf : Profile → Attempt → Type 0
IsServerOf p c = (s : Server) × In s p.servers × (renderable s ≡ true) × (c ≡ attempt_of s)

only_explicit-found :
    (ss : List Server) (explicit : Text) (cs : List Attempt)
    → only_explicit ss explicit ≡ found cs
    → (s : Server) × In s ss × (renderable s ≡ true) × (s.id ≡ explicit) × (cs ≡ attempt_of s ∷ [])
unfolding only_explicit
only_explicit-found [] explicit cs e = cc
only_explicit-found (s ∷ ss) explicit cs e = elim (Bool-cases (text_eq s.id explicit)) [
  | inl t ↦ (s, inl refl, ground arith, (text_eq_iff s.id explicit).0 t, ground arith)
  | inr f ↦
      let (s', i, r, n, c) = only_explicit-found ss explicit cs (ground arith) in
      (s', inr i, r, n, c)
]

some_found-same : (as' cs : List Attempt) → some_found as' ≡ found cs → cs ≡ as'
unfolding some_found
some_found-same [] cs e = cc
some_found-same (a ∷ as') cs e = ground arith

one_candidate :
    (p : Profile) (s : Server) (c : Attempt)
    → In s p.servers
    → renderable s ≡ true
    → In c (attempt_of s ∷ [])
    → IsServerOf p c
unfolding IsServerOf
one_candidate p s c i r (inl e) = (s, i, r, e)
one_candidate p s c i r (inr j) = absurd j

-- Every candidate of `buildCandidates` is a server of the profile that the builder can render,
-- with its ID and its node. With an explicit node there is exactly one, and it has that ID;
-- without one, every server that the builder can render is among them.
pub build_candidates-found :
    (p : Profile) (explicit : Text) (cs : List Attempt)
    → build_candidates p explicit ≡ found cs
    → ((c : Attempt) → In c cs → IsServerOf p c)
      × (explicit ≢ codes "" → (c : Attempt) × (cs ≡ c ∷ []) × (c.node_id ≡ explicit))
      × (explicit ≡ codes ""
          → (s : Server) → In s p.servers
          → renderable s ≡ true
          → In (attempt_of s) cs)
unfolding build_candidates IsServerOf
build_candidates-found p explicit cs e = elim (Bool-cases (text_eq explicit (codes ""))) [
  | inl none' ↦
      let same = some_found-same (map attempt_of (keep renderable p.servers)) cs (ground arith) in
      (
        λ c i.
            let (s, j, q) = In-map attempt_of c (keep renderable p.servers) (rw⁻¹ same i) in
            let (k, r) = In-keep renderable s p.servers j in (s, k, r, q),
        λ named. absurd (named ((text_eq_iff explicit (codes "")).0 none')),
        λ _ s i r.
            rw same (map-In (keep renderable p.servers) s (keep-In renderable s p.servers i r)),
      )
  | inr named ↦
      let (s, i, r, n, q) = only_explicit-found p.servers explicit cs (ground arith) in
      (
        λ c j. one_candidate p s c i r (rw q at j),
        λ _. (attempt_of s, q, n),
        λ blank. absurd (ground (arith, text_eq_iff explicit (codes ""))),
      )
]

-- The node at an index, given the ID there.
unfoldable pub attempted : Option Text → Text → Strategy → Node → Node
attempted none target strat n = n
attempted (some id) target strat n = if text_eq id target then apply_to strat n else n

reshape_target-get :
    (nodes : List Node) (ids : List Text) (target : Text) (strat : Strategy) (i : ℕ) {n : Node}
    → get_elem? nodes i ≡ some n
    → get_elem? (reshape_target nodes ids target strat) i
      ≡ some (attempted (get_elem? ids i) target strat n)
unfolding reshape_target attempted
reshape_target-get [] ids target strat i e = cc
reshape_target-get (m ∷ nodes) [] target strat i e = e
reshape_target-get (m ∷ nodes) (id ∷ ids) target strat zero e = ground arith
reshape_target-get (m ∷ nodes) (id ∷ ids) target strat (suc i) e =
    reshape_target-get nodes ids target strat i e

attempted-default :
    (id : Option Text) (target : Text) (strat : Strategy) (n : Node)
    → is_default strat ≡ true
    → attempted id target strat n ≡ n
unfolding attempted
attempted-default none target strat n e = refl
attempted-default (some id) target strat n e = ground (arith, apply_to-default strat n e)

-- An attempt has every node of the profile at its index: the strategy is applied to a node whose
-- ID is the target's, and any other node is as it was.
pub apply_strategy_to_nodes-get :
    (nodes : List Node) (node_ids : List Text) (target : Text) (strat : Strategy) (i : ℕ) (n : Node)
    → get_elem? nodes i ≡ some n
    → get_elem? (apply_strategy_to_nodes nodes node_ids target strat) i
      ≡ some (attempted (get_elem? node_ids i) target strat n)
unfolding apply_strategy_to_nodes
apply_strategy_to_nodes-get nodes node_ids target strat i n e =
    elim (Bool-cases (is_default strat)) [
      | inl d ↦ rw (d, attempted-default (get_elem? node_ids i) target strat n d) e
      | inr o ↦ rw o (reshape_target-get nodes node_ids target strat i e)
    ]
