-- ===== src/Tunguard/Wins.antt =====
-- The best uplink in core/tunguard/tunguard.go, as a comparison with every uplink.
use tenebra.Prelude.{
  Bool, true, false, not, ◌&&◌, ◌||◌, Option, none, some, List, [], ◌∷◌, Text, ℤ, le_int, all, In,
  In-keep, keep-In, all-In, ◌≡◌, ◌↔◌, inl, inr, refl, ◌∙◌, Bool-cases, arith,
}
use tenebra.Tunguard.{
  Iface, has_default, family_default, is_tunnel_iface, lower_own, is_own, is_uplink, better,
  uplink_loop, uplink_metric, at_most, wins_route, is_conflict, conflicts,
}

abbrev pub loses_to_none : List Text → Bool → ℤ → Iface → Bool
loses_to_none own v6 metric o = not (is_uplink own v6 o) || le_int metric (family_default o v6).1

at_most-better :
    (best : Option ℤ) (m metric : ℤ)
    → at_most (better best m) metric ≡ (at_most best metric && le_int metric m)
at_most-better none m metric = ground arith
at_most-better (some b) m metric = ground arith

-- To be at most the least metric of the loop is to be at most the metric of each uplink.
pub at_most-uplink_loop :
    (own : List Text) (v6 : Bool) (metric : ℤ) (best : Option ℤ) (is : List Iface)
    → at_most (uplink_loop own v6 best is) metric
      ≡ (at_most best metric && all (loses_to_none own v6 metric) is)
unfolding uplink_loop
at_most-uplink_loop own v6 metric best [] = ground arith
at_most-uplink_loop own v6 metric best (i ∷ is) = elim (Bool-cases (is_uplink own v6 i)) [
  | inl up ↦ rw up (
      at_most-uplink_loop own v6 metric (better best (family_default i v6).1) is
      ∙ ground (arith, at_most-better best (family_default i v6).1 metric))
  | inr other ↦ rw other (at_most-uplink_loop own v6 metric best is)
]

all-of-In :
    (p : Iface → Bool) (is : List Iface) → ((o : Iface) → In o is → p o ≡ true) → all p is ≡ true
all-of-In p [] h = refl
all-of-In p (i ∷ is) h = ground (arith, h i (inl refl), all-of-In p is (λ o m. h o (inr m)))

-- The interface has a default route of the family, and no interface of the machine that is
-- neither a tunnel nor ours has one of that family with a smaller metric.
pub record WinsFamily (ifaces : List Iface) (own : List Text) (i : Iface) (v6 : Bool) : Type 0 where
  pub captures : (family_default i v6).0 ≡ true
  pub unbeaten :
      (o : Iface)
      → In o ifaces
      → (family_default o v6).0 ≡ true
      → is_tunnel_iface o ≡ false
      → is_own o.name own ≡ false
      → le_int (family_default i v6).1 (family_default o v6).1 ≡ true

wins_route-WinsFamily :
    (ifaces : List Iface) (own : List Text) (i : Iface) (v6 : Bool)
    → wins_route i v6 (uplink_metric ifaces own v6) ≡ true
    → WinsFamily ifaces own i v6
unfolding wins_route uplink_metric
wins_route-WinsFamily ifaces own i v6 h =
    let bound = at_most-uplink_loop own v6 (family_default i v6).1 none ifaces in
    let everywhere : all (loses_to_none own v6 (family_default i v6).1) ifaces ≡ true =
      ground (arith, bound) in
    record {
      captures = ground arith;
      unbeaten = λ o m has not_tunnel not_own.
          let r = all-In (loses_to_none own v6 (family_default i v6).1) o ifaces everywhere m in
          unfold is_uplink in ground (arith, r);
    }

WinsFamily-wins_route :
    (ifaces : List Iface) (own : List Text) (i : Iface) (v6 : Bool)
    → WinsFamily ifaces own i v6
    → wins_route i v6 (uplink_metric ifaces own v6) ≡ true
unfolding wins_route uplink_metric
WinsFamily-wins_route ifaces own i v6 w =
    let bound = at_most-uplink_loop own v6 (family_default i v6).1 none ifaces in
    let everywhere =
      all-of-In (loses_to_none own v6 (family_default i v6).1) ifaces
        (λ o m. unfold is_uplink in ground (arith, w.unbeaten o m)) in
    ground (arith, bound, everywhere, w.captures)

captures-has_default :
    (i : Iface) (v6 : Bool) → (family_default i v6).0 ≡ true → has_default i ≡ true
unfolding family_default has_default
captures-has_default i true h = ground arith
captures-has_default i false h = ground arith

is_conflict-WinsFamily :
    (ifaces : List Iface) (own : List Text) (i : Iface)
    → is_conflict ifaces own i ≡ true
    → (is_tunnel_iface i ≡ true)
      × (is_own i.name own ≡ false)
      × ((v6 : Bool) × WinsFamily ifaces own i v6)
unfolding is_conflict
is_conflict-WinsFamily ifaces own i h = (
  ground arith,
  ground arith,
  elim (Bool-cases (wins_route i false (uplink_metric ifaces own false))) [
    | inl wins ↦ (false, wins_route-WinsFamily ifaces own i false wins)
    | inr loses ↦ (true, wins_route-WinsFamily ifaces own i true (ground arith))
  ],
)

WinsFamily-is_conflict :
    (ifaces : List Iface) (own : List Text) (i : Iface) (v6 : Bool)
    → is_tunnel_iface i ≡ true
    → is_own i.name own ≡ false
    → WinsFamily ifaces own i v6
    → is_conflict ifaces own i ≡ true
unfolding is_conflict
WinsFamily-is_conflict ifaces own i false t o w =
    ground
      (arith, captures-has_default i false w.captures, WinsFamily-wins_route ifaces own i false w)
WinsFamily-is_conflict ifaces own i true t o w =
    ground
      (arith, captures-has_default i true w.captures, WinsFamily-wins_route ifaces own i true w)

-- `Conflicts` returns exactly the interfaces of the machine that are tunnels, are not ours, and
-- in IPv4 or in IPv6 have a default route that no uplink of that family beats.
pub conflicts_iff :
    (ifaces : List Iface) (own_names : List Text) (i : Iface)
    → In i (conflicts ifaces own_names) ↔ (
        In i ifaces
        × (is_tunnel_iface i ≡ true)
        × (is_own i.name (lower_own own_names) ≡ false)
        × ((v6 : Bool) × WinsFamily ifaces (lower_own own_names) i v6))
unfolding conflicts
conflicts_iff ifaces own_names i = (
  λ m.
      let r = In-keep (is_conflict ifaces (lower_own own_names)) i ifaces m in
      let w = is_conflict-WinsFamily ifaces (lower_own own_names) i r.1 in (r.0, w.0, w.1, w.2),
  λ r.
      keep-In (is_conflict ifaces (lower_own own_names)) i ifaces r.0
        (WinsFamily-is_conflict ifaces (lower_own own_names) i r.3.0 r.1 r.2 r.3.1),
)
