-- ===== src/Tunguard/Own.antt =====
-- Our own interfaces in core/tunguard/tunguard.go.
use tenebra.Prelude.{
  Bool, true, false, not, ◌&&◌, ◌||◌, Option, none, some, List, [], ◌∷◌, Text, ℤ, keep, length,
  ◌==◌, ◌≡◌, refl, ap, ap₂, inl, inr, Bool-cases, if◌then◌else◌, arith,
}
use tenebra.Tunguard.{
  Iface, has_default, family_default, is_tunnel_iface, lower_own, is_own, is_uplink, better,
  uplink_loop, uplink_metric, wins_route, is_conflict, conflicts, check,
}

abbrev pub foreign : List Text → Iface → Bool
foreign own i = not (is_own i.name own)

own-not_uplink :
    (own : List Text) (v6 : Bool) (i : Iface)
    → is_own i.name own ≡ true
    → is_uplink own v6 i ≡ false
unfolding is_uplink
own-not_uplink own v6 i h = ground arith

uplink_loop-foreign :
    (own : List Text) (v6 : Bool) (best : Option ℤ) (is : List Iface)
    → uplink_loop own v6 best (keep (foreign own) is) ≡ uplink_loop own v6 best is
unfolding uplink_loop
uplink_loop-foreign own v6 best [] = refl
uplink_loop-foreign own v6 best (i ∷ is) = elim (Bool-cases (is_own i.name own)) [
  | inl ours ↦ rw ours (rw (own-not_uplink own v6 i ours) (uplink_loop-foreign own v6 best is))
  | inr other ↦ rw other (
      uplink_loop-foreign own v6
        (if is_uplink own v6 i then better best (family_default i v6).1 else best) is)
]

is_conflict-foreign :
    (ifaces : List Iface) (own : List Text) (i : Iface)
    → is_conflict (keep (foreign own) ifaces) own i ≡ is_conflict ifaces own i
unfolding is_conflict uplink_metric
is_conflict-foreign ifaces own i =
    ap₂
      (λ u w.
        has_default i
        && not (is_own i.name own)
        && is_tunnel_iface i
        && (wins_route i false u || wins_route i true w))
      (uplink_loop-foreign own false none ifaces) (uplink_loop-foreign own true none ifaces)

own-not_conflict :
    (ifaces : List Iface) (own : List Text) (i : Iface)
    → is_own i.name own ≡ true
    → is_conflict ifaces own i ≡ false
unfolding is_conflict
own-not_conflict ifaces own i h = ground arith

keep-foreign :
    (p q : Iface → Bool) (own : List Text) (is : List Iface)
    → ((i : Iface) → p i ≡ q i)
    → ((i : Iface) → is_own i.name own ≡ true → q i ≡ false)
    → keep p (keep (foreign own) is) ≡ keep q is
keep-foreign p q own [] same none' = refl
keep-foreign p q own (i ∷ is) same none' = elim (Bool-cases (is_own i.name own)) [
  | inl ours ↦ rw ours (rw (none' i ours) (keep-foreign p q own is same none'))
  | inr other ↦
      rw other
        (rw (same i) (ap (λ l. if q i then i ∷ l else l) (keep-foreign p q own is same none')))
]

-- The verdict of `Check` is the same whether or not the interfaces that match one of our own
-- names are among those of the machine: a tunnel that is being replaced neither blocks the next
-- one nor hides a foreign tunnel behind its own metric.
pub check-foreign :
    (ifaces : List Iface) (override : Bool) (own_names : List Text)
    → check (keep (foreign (lower_own own_names)) ifaces) override own_names
      ≡ check ifaces override own_names
unfolding check conflicts
check-foreign ifaces override own_names =
    let own = lower_own own_names in
    ap (λ (c : List Iface). if override then none else (if length c == 0 then none else some c))
      (keep-foreign (is_conflict (keep (foreign own) ifaces) own) (is_conflict ifaces own) own
        ifaces (is_conflict-foreign ifaces own) (own-not_conflict ifaces own))
