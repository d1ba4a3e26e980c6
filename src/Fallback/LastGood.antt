-- ===== src/Fallback/LastGood.antt =====
-- core/fallback/lastgood.go: the interface that the machine uses, and the in-memory store. The
-- mutex orders the calls, so a call is a function on the map.
use tenebra.Prelude.{
  ◌≡◌, List, [], Option, some, Text, if◌then◌else◌, text_eq, lookup, insert, lookup-insert,
}

-- `LastGood`: `Set` replaces the value of its own profile, and no other.
pub record LastGood (S : Type 0) : Type 0 where
  pub get : S → Text → Option Text
  pub set : S → Text → Text → S
  pub get-set :
      (s : S) (p q id : Text) → get (set s p id) q ≡ (if text_eq p q then some id else get s q)

pub MemLastGood : Type 0
MemLastGood = List (Text × Text)

-- `NewMemLastGood`.
unfoldable pub new_mem_last_good : MemLastGood
unfolding MemLastGood
new_mem_last_good = []

unfoldable pub get : MemLastGood → Text → Option Text
unfolding MemLastGood
get m profile_id = lookup profile_id m

unfoldable pub set : MemLastGood → Text → Text → MemLastGood
unfolding MemLastGood
set m profile_id node_id = insert profile_id node_id m

pub get-set :
    (m : MemLastGood) (p q id : Text)
    → get (set m p id) q ≡ (if text_eq p q then some id else get m q)
unfolding MemLastGood get set
get-set m p q id = lookup-insert p q id m

instance abbrev pub mem_last_good : LastGood MemLastGood
mem_last_good = record { get = get; set = set; get-set = get-set }
