-- ===== src/Profile/Store.antt =====
-- core/profile/store.go. JSON is a parameter, `Codec`. The disk holds the file of profiles; which
-- call of the operating system fails, if any, is an argument of an operation. The mutex makes
-- each operation one step, and the directory is fixed.
pub mod Places
pub mod Synced
pub mod View
pub mod Mapped
use tenebra.Prelude.{
  ℕ, zero, suc, ◌-◌, ℤ, pos, Bool, true, false, Option, none, some, List, [], ◌∷◌, ◌++◌, Text,
  codes, text_eq, length, get_elem?, take, drop, set, ◌≡◌, ◌≢◌, if◌then◌else◌,
}
use tenebra.Profile.{Profile}

-- What the store relies on of `encoding/json`: text that it writes is not empty, and reads back.
pub record Codec : Type 0 where
  pub encode : List Profile → Option Text
  pub decode : Text → Option (List Profile)
  pub decode-encode : (ps : List Profile) (d : Text) → encode ps ≡ some d → decode d ≡ some ps
  pub encode_lem : (ps : List Profile) (d : Text) → encode ps ≡ some d → d ≢ []

pub data Failure : Type 0 where
  empty_dir mkdir_failed read_failed parse_failed : Failure
  empty_id exists not_found : Failure
  encode_failed create_failed write_failed sync_failed close_failed rename_failed : Failure

-- The call of the operating system that fails during a save.
pub data Fault : Type 0 where
  healthy at_create at_write at_sync at_close at_rename : Fault

-- The file, if there is one.
abbrev pub Disk : Type 0
Disk = Option Text

pub record Store : Type 0 where
  pub profiles : List Profile
  pub disk : Disk

pub record Done : Type 0 where
  pub store : Store
  pub failure : Option Failure

-- `indexOf`; -1 is `none`.
unfoldable pub index_from : ℕ → Text → List Profile → Option ℕ
index_from i id [] = none
index_from i id (p ∷ ps) = if text_eq p.id id then some i else index_from (suc i) id ps

unfoldable pub index_of : List Profile → Text → Option ℕ
index_of ps id = index_from 0 id ps

-- `Get`.
unfoldable pub get : Store → Text → Option Profile
get s id = elim (index_of s.profiles id) [ none ↦ none | some i ↦ get_elem? s.profiles i ]

-- The calls of `save` behind the encoding, each of which may be the one that fails.
unfoldable pub write_file : Fault → Text → Disk → Disk × Option Failure
write_file at_create data' d = (d, some create_failed)
write_file at_write data' d = (d, some write_failed)
write_file at_sync data' d = (d, some sync_failed)
write_file at_close data' d = (d, some close_failed)
write_file at_rename data' d = (d, some rename_failed)
write_file healthy data' d = (some data', none)

-- What an operation leaves: the new profiles, or those that its roll-back makes.
settle : List Profile → List Profile → Disk × Option Failure → Done
settle after back (d, none) = record {
  store = record { profiles = after; disk = d };
  failure = none;
}
settle after back (d, some e) = record {
  store = record { profiles = back; disk = d };
  failure = some e;
}

refuse : Store → Failure → Done
refuse s e = record { store = s; failure = some e }

-- `Profile{}`.
abbrev pub blank : Profile
blank = record {
  id = [];
  name = [];
  source = [];
  url = [];
  servers = [];
  updated_at = pos 0;
  expires_at = none;
  traffic_used = pos 0;
  traffic_total = pos 0;
  managed = false;
  tier = [];
}

-- The roll-back of `Remove`: append a place, copy the profiles from `i` on up by one, and write
-- the removed one at `i`.
unfoldable pub restored : List Profile → ℕ → Profile → List Profile
restored after i removed =
    let grown = after ++ blank ∷ [] in
    let moved = take (suc i) grown ++ take (length grown - suc i) (drop i grown) in
    set moved i removed

module _ (c : Codec) where
  open c use {encode, decode}

  write_encoded : Fault → Disk → Option Text → Disk × Option Failure
  write_encoded f d none = (d, some encode_failed)
  write_encoded f d (some data') = write_file f data' d

  -- `save`.
  unfoldable pub save : Fault → List Profile → Disk → Disk × Option Failure
  unfolding write_encoded write_file
  save f ps d = write_encoded f d (encode ps)

  parse : Option (List Profile) → Option (List Profile) × Option Failure
  parse none = (none, some parse_failed)
  parse (some ps) = (some ps, none)

  -- `load`: the profiles of a disk that can be read.
  unfoldable pub load : Disk → Option (List Profile) × Option Failure
  unfolding parse
  load none = (some [], none)
  load (some []) = (some [], none)
  load (some (b ∷ data')) = parse (decode (b ∷ data'))

  unfoldable pub add : Fault → Store → Profile → Done
  unfolding settle refuse
  add f s p =
      if text_eq p.id (codes "") then refuse s empty_id else elim (index_of s.profiles p.id) [
        | some i ↦ refuse s exists
        | none ↦
            let after = s.profiles ++ p ∷ [] in
            settle after (take (length s.profiles) after) (save f after s.disk)
      ]

  -- `s.profiles[i] = p`, and `s.profiles[i] = prev` if the save fails.
  update_at : Fault → Store → Profile → ℕ → Profile → Done
  unfolding settle
  update_at f s p i prev =
      let after = set s.profiles i p in settle after (set after i prev) (save f after s.disk)

  unfoldable pub update : Fault → Store → Profile → Done
  unfolding update_at refuse
  update f s p =
      if text_eq p.id (codes "") then refuse s empty_id else elim (index_of s.profiles p.id) [
        | none ↦ refuse s not_found
        | some i ↦ elim (get_elem? s.profiles i) [
          | none ↦ refuse s not_found
          | some prev ↦ update_at f s p i prev
        ]
      ]

  remove_at : Fault → Store → ℕ → Profile → Done
  unfolding settle restored
  remove_at f s i removed =
      let after = take i s.profiles ++ drop (suc i) s.profiles in
      settle after (restored after i removed) (save f after s.disk)

  unfoldable pub remove : Fault → Store → Text → Done
  unfolding remove_at refuse
  remove f s id = elim (index_of s.profiles id) [
    | none ↦ refuse s not_found
    | some i ↦ elim (get_elem? s.profiles i) [
      | none ↦ refuse s not_found
      | some removed ↦ remove_at f s i removed
    ]
  ]
