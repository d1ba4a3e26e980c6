-- ===== src/Bridge/Order/Exhaustive.antt =====
-- The order that `OrderNodes` of core-bridge/order.go returns, against the selector.
use mathlib.Core.List.{Perm}
use mathlib.Core.List.Perm
use tenebra.Prelude.{
  ℕ, zero, suc, Bool-cases, some, Option-cases, some_inj, List, [], ◌∷◌, map, get_elem?, length, In,
  Text, text_eq, text_eq_iff, text_eq_refl, lookup, lookup-insert, ℤ, ◌==◌, ◌≡◌, refl, sym, ap, ap₂,
  ◌∙◌, inl, inr, if-ind,
}
use tenebra.Prelude.Sort.Elements.{Distinct}
use tenebra.Model.{Node}
use tenebra.Profile.{Server, Profile}
use tenebra.Fallback.LastGood.{MemLastGood, mem_last_good}
use tenebra.Fallback.Machine.{Attempt, Machine, new, new_by_latency}
use tenebra.Fallback.Machine.Order.{new-perm, new_by_latency-perm}
use tenebra.Singbox.Nodes.{NodeTag, tags_of, build_nodes, selector_tags}
use tenebra.Singbox.Nodes.Made.{build_nodes-AllMade}
use tenebra.Singbox.Nodes.Indexed.{indices_of, build_nodes-indices}
use tenebra.Control.Tags.{profile_nodes, put_tag, put_tags, node_tags, tag_for, or_empty}
use tenebra.Bridge.Order.{seed_last_good, candidates_of, machine_for, order_nodes}

abbrev pub ids_of : List Server → List Text
ids_of servers = map (λ (s : Server). s.id) servers

id-In :
    (servers : List Server) (i : ℕ) (s : Server)
    → get_elem? servers i ≡ some s
    → In s.id (ids_of servers)
id-In [] i s h = absurd (cc)
id-In (x ∷ xs) zero s h = inl (ap (λ (q : Server). q.id) (sym (some_inj h)))
id-In (x ∷ xs) (suc i) s h = inr (id-In xs i s h)

-- Servers with distinct IDs: an ID stands at one index.
index_of_id :
    (servers : List Server) (i j : ℕ) (s t : Server)
    → Distinct (ids_of servers)
    → get_elem? servers i ≡ some s
    → get_elem? servers j ≡ some t
    → s.id ≡ t.id
    → i ≡ j
index_of_id [] i j s t d h k e = absurd (cc)
index_of_id (x ∷ xs) zero zero s t d h k e = refl
index_of_id (x ∷ xs) zero (suc j) s t d h k e =
    let q = ap (λ (q : Server). q.id) (some_inj h) in absurd (d.0 (rw (q ∙ e) (id-In xs j t k)))
index_of_id (x ∷ xs) (suc i) zero s t d h k e =
    let q = ap (λ (q : Server). q.id) (some_inj k) in absurd (d.0 (rw (q ∙ sym e) (id-In xs i s h)))
index_of_id (x ∷ xs) (suc i) (suc j) s t d h k e = ap suc (index_of_id xs i j s t d.1 h k e)

module _ (servers : List Server) (d : Distinct (ids_of servers)) where
  put_tag-other :
      (nt : NodeTag) (i : ℕ) (s : Server) (tags : List (Text × Text))
      → get_elem? servers i ≡ some s
      → (i ≡ nt.index → ⊥)
      → lookup s.id (put_tag servers nt tags) ≡ lookup s.id tags
  unfolding put_tag
  put_tag-other nt i s tags at_i ne = elim (Option-cases (get_elem? servers nt.index)) [
    | inl e ↦ rw (e, put_tag) refl
    | inr (t, e) ↦
        rw (e, put_tag)
          (elim (Bool-cases (text_eq t.id s.id)) [
            | inl y ↦ absurd (
                ne
                  (sym (index_of_id servers nt.index i t s d e at_i ((text_eq_iff t.id s.id).0 y))))
            | inr n ↦ rw (lookup-insert t.id s.id nt.tag tags, n) refl
          ])
  ]

  put_tags-other :
      (sel : List NodeTag) (i : ℕ) (s : Server) (tags : List (Text × Text))
      → get_elem? servers i ≡ some s
      → (In i (indices_of sel) → ⊥)
      → lookup s.id (put_tags servers sel tags) ≡ lookup s.id tags
  unfolding put_tags
  put_tags-other [] i s tags at_i ne = refl
  put_tags-other (nt ∷ sel) i s tags at_i ne =
      put_tags-other sel i s (put_tag servers nt tags) at_i (λ m. ne (inr m))
      ∙ put_tag-other nt i s tags at_i (λ e. ne (inl e))

  put_tag_self :
      (nt : NodeTag) (s : Server) (tags : List (Text × Text))
      → get_elem? servers nt.index ≡ some s
      → lookup s.id (put_tag servers nt tags) ≡ some nt.tag
  unfolding put_tag
  put_tag_self nt s tags at_i =
      rw (at_i, put_tag) (rw (lookup-insert s.id s.id nt.tag tags, text_eq_refl s.id) refl)

  put_tags-lookup :
      (sel : List NodeTag) (nt : NodeTag) (s : Server) (tags : List (Text × Text))
      → Distinct (indices_of sel)
      → In nt sel
      → get_elem? servers nt.index ≡ some s
      → lookup s.id (put_tags servers sel tags) ≡ some nt.tag
  unfolding put_tags
  put_tags-lookup [] nt s tags ds i at_i = absurd i
  put_tags-lookup (x ∷ sel) nt s tags ds (inl e) at_i =
      let same = ap (λ (q : NodeTag). q.index) e in
      put_tags-other sel nt.index s (put_tag servers x tags) at_i (λ m. ds.0 (rw (sym same) m))
      ∙ put_tag_self x s tags (ap (get_elem? servers) (sym same) ∙ at_i)
      ∙ ap (λ (q : NodeTag). some q.tag) (sym e)
  put_tags-lookup (x ∷ sel) nt s tags ds (inr i) at_i =
      put_tags-lookup sel nt s (put_tag servers x tags) ds.1 i at_i

-- The tag of each candidate is that of its node.
candidates-tags :
    (servers : List Server) (sel : List NodeTag) (tags : List (Text × Text))
    → ((nt : NodeTag)
        → In nt sel
        → (s : Server) × (get_elem? servers nt.index ≡ some s) × (lookup s.id tags ≡ some nt.tag))
    → map (λ (a : Attempt). tag_for tags a.node_id) (candidates_of servers sel) ≡ tags_of sel
unfolding candidates_of
candidates-tags servers [] tags h = refl
candidates-tags servers (nt ∷ sel) tags h =
    let (s, at_s, e) = h nt (inl refl) in
    let t : (tag_for tags s.id ≡ nt.tag) = unfold tag_for in ap or_empty e in
    rw (at_s, candidates_of)
      (ap₂ (λ (x : Text) (xs : List Text). x ∷ xs) t
        (candidates-tags servers sel tags (λ x i. h x (inr i))))

get_elem?-of_map :
    (servers : List Server) (i : ℕ) (n : Node)
    → get_elem? (map (λ (s : Server). s.node) servers) i ≡ some n
    → (s : Server) × (get_elem? servers i ≡ some s)
get_elem?-of_map [] i n h = absurd (cc)
get_elem?-of_map (s ∷ ss) zero n h = (s, refl)
get_elem?-of_map (s ∷ ss) (suc i) n h = get_elem?-of_map ss i n h

machine_for-perm :
    (p : Profile) (last : Text) (latency : List (Text × ℤ)) (cands : List Attempt)
    → Perm (machine_for p last latency cands).order cands
unfolding machine_for
machine_for-perm p last latency cands =
    if-ind (λ (m : Machine MemLastGood). Perm m.order cands) (length latency == 0)
      (new p.id cands [] (seed_last_good p.id last))
      (new_by_latency p.id cands latency (seed_last_good p.id last))
      (λ z. (new-perm p.id cands [] (seed_last_good p.id last)).0)
      (λ z. (new_by_latency-perm p.id cands latency (seed_last_good p.id last)).0)

-- For a profile whose servers have distinct IDs, whatever node worked last and whatever is measured:
-- the order is a permutation of the tags of the selector, so every node is tried exactly once, and
-- under its own tag.
pub order_nodes-perm :
    (p : Profile) (last : Text) (latency : List (Text × ℤ))
    → Distinct (ids_of p.servers)
    → Perm (order_nodes p last latency) (tags_of (selector_tags (profile_nodes p)))
unfolding order_nodes node_tags selector_tags
order_nodes-perm p last latency d =
    let nodes = profile_nodes p in
    let sel = (build_nodes nodes).sel in
    let tags = put_tags p.servers sel [] in
    let named = candidates-tags p.servers sel tags (λ nt i.
      let (n, at_n, made) = (build_nodes-AllMade nodes).made nt i in
      let (s, at_s) = get_elem?-of_map p.servers nt.index n at_n in
      (s, at_s, put_tags-lookup p.servers d sel nt s [] (build_nodes-indices nodes) i at_s)) in
    rw (sym named) (
      Perm.map (λ (a : Attempt). tag_for tags a.node_id)
        (machine_for-perm p last latency (candidates_of p.servers sel)))
