-- ===== src/Tests/Tunguard.antt =====
-- An uplink, a foreign tunnel that beats it, and our own tunnel.
use tenebra.Prelude.{Bool, true, false, List, [], ◌∷◌, Text, codes, pos, ◌≡◌, ◌↔◌, keep, In}
use tenebra.Tunguard.{Iface, is_tunnel_iface, is_own, lower_own, conflicts, check}
use tenebra.Tunguard.Wins.{WinsFamily, conflicts_iff}
use tenebra.Tunguard.Own.{foreign, check-foreign}

abbrev wifi : Iface
wifi = record {
  name = codes "Wi-Fi";
  description = [];
  is_tunnel = false;
  has_default4 = true;
  has_default6 = false;
  metric4 = pos 35;
  metric6 = pos 0;
}

abbrev other : Iface
other = record wifi { name = codes "wg0"; is_tunnel = true; metric4 = pos 5 }

abbrev own : Iface
own = record wifi { name = codes "tenebra"; is_tunnel = true; metric4 = pos 1 }

abbrev machine : List Iface
machine = wifi ∷ other ∷ own ∷ []

abbrev ours : List Text
ours = codes "Tenebra" ∷ []

conflicts_iff_example : In other (conflicts machine ours) ↔ (
    In other machine
    × (is_tunnel_iface other ≡ true)
    × (is_own other.name (lower_own ours) ≡ false)
    × ((v6 : Bool) × WinsFamily machine (lower_own ours) other v6))
conflicts_iff_example = conflicts_iff machine ours other

check-foreign_example :
    check (keep (foreign (lower_own ours)) machine) false ours ≡ check machine false ours
check-foreign_example = check-foreign machine false ours
