-- ===== src/Profile.antt =====
-- core/profile: the profiles and their servers (profile.go), and the store that keeps them in one
-- file (store.go).
pub mod Store
pub mod Identity
use tenebra.Prelude.{Bool, Option, List, Text, codes, ℤ}
use tenebra.Model.{Node}

abbrev pub source_subscription : Text
source_subscription = codes "subscription"

abbrev pub source_manual : Text
source_manual = codes "manual"

pub record Server : Type 0 where
  pub id : Text
  pub node : Node

-- A time is its instant, in nanoseconds.
pub record Profile : Type 0 where
  pub id : Text
  pub name : Text
  pub source : Text
  pub url : Text
  pub servers : List Server
  pub updated_at : ℤ
  pub expires_at : Option ℤ
  pub traffic_used : ℤ
  pub traffic_total : ℤ
  pub managed : Bool
  pub tier : Text
