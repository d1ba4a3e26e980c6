-- ===== src/Tests/Profile.antt =====
-- A store with one profile, and a codec that writes the IDs of profiles that hold nothing else.
use tenebra.Prelude.{
  zero, Bool, false, Option, none, some, List, [], ◌∷◌, Text, codes, text_eq, ◌≡◌, ◌≢◌, ◌⊎◌, refl,
  ◌==◌, if◌then◌else◌, pos, ℤ, arith,
}
use tenebra.Profile.{Profile, Server}
use tenebra.Profile.Store.{
  Codec, Failure, healthy, Store, load, blank, index_of, index_from, exists, add, remove, save,
}
use tenebra.Profile.Store.Synced.{do_add, do_remove, Applies, run, InSync, run_lem}
use tenebra.Profile.Store.View.{WellFormed, look}
use tenebra.Profile.Store.Mapped.{Promise, run-remap}
use tenebra.Profile.Identity.{
  identity, wire_guard_fields, tls_fields, reality_fields, transport_fields,
}
use tenebra.Profile.Identity.Fields.{Sized, identity-same}
use tenebra.Model.{Node, vless}

encode_fields :
    Text → Text → Text → Text → List Server → ℤ → Option ℤ → ℤ → ℤ → Bool → Text → Option Text
encode_fields id [] [] [] [] (pos zero) none (pos zero) (pos zero) false [] = some (1 ∷ id)
encode_fields _ _ _ _ _ _ _ _ _ _ _ = none

-- It writes no profile or one, which has nothing but its ID, and refuses all else.
encode_few : List Profile → Option Text
unfolding encode_fields
encode_few [] = some (0 ∷ [])
encode_few (p ∷ []) =
    encode_fields p.id p.name p.source p.url p.servers p.updated_at p.expires_at p.traffic_used
      p.traffic_total p.managed p.tier
encode_few (p ∷ q ∷ ps) = none

decode_few : Text → Option (List Profile)
decode_few (tag ∷ id) = if tag == 1 then some (record blank { id = id } ∷ []) else some []
decode_few [] = none

some-same : {x y : Text} → some x ≡ some y → x ≡ y
some-same e = cc

few-fields :
    (i n s u : Text) (ss : List Server) (at : ℤ) (until : Option ℤ) (used total : ℤ) (m : Bool)
    (t d : Text)
    → encode_fields i n s u ss at until used total m t ≡ some d
    → decode_few d
      ≡ some (
          record {
            id = i;
            name = n;
            source = s;
            url = u;
            servers = ss;
            updated_at = at;
            expires_at = until;
            traffic_used = used;
            traffic_total = total;
            managed = m;
            tier = t;
          }
          ∷ [])
unfolding encode_fields decode_few
few-fields i [] [] [] [] (pos zero) none (pos zero) (pos zero) false [] d e =
    rw⁻¹ (some-same e) refl
few-fields _ _ _ _ _ _ _ _ _ _ _ d e = cc

few-decode : (ps : List Profile) (d : Text) → encode_few ps ≡ some d → decode_few d ≡ some ps
unfolding encode_few decode_few
few-decode [] d e = ground arith
few-decode (p ∷ []) d e =
    few-fields p.id p.name p.source p.url p.servers p.updated_at p.expires_at p.traffic_used
      p.traffic_total p.managed p.tier d e
few-decode (p ∷ q ∷ ps) d e = cc

few-filled : (ps : List Profile) (d : Text) → encode_few ps ≡ some d → d ≢ []
unfolding decode_few
few-filled ps d e n = let r = few-decode ps d e in cc

abbrev codec : Codec
codec = record {
  encode = encode_few;
  decode = decode_few;
  decode-encode = few-decode;
  encode_lem = few-filled;
}

abbrev home : Profile
home = record blank { id = codes "h" }

abbrev work : Profile
work = record blank { id = codes "w" }

abbrev store : Store
store = record { profiles = home ∷ []; disk = some (1 ∷ codes "h") }

store-InSync : InSync codec store
unfolding InSync load decode_few
store-InSync = refl

run_lem_example :
    InSync codec (run codec healthy (do_remove (codes "h")) store).store
    × (((run codec healthy (do_remove (codes "h")) store).store ≡ store)
          × ((e : Failure) × ((run codec healthy (do_remove (codes "h")) store).failure ≡ some e))
        ⊎ Applies
            (do_remove (codes "h"))
            (home ∷ [])
            (run codec healthy (do_remove (codes "h")) store).store.profiles
          × ((run codec healthy (do_remove (codes "h")) store).failure ≡ none))
run_lem_example = run_lem codec healthy (do_remove (codes "h")) store store-InSync

home-WellFormed : WellFormed (home ∷ [])
unfolding WellFormed look
home-WellFormed = (λ e. cc, refl, tt)

abbrev empty : Store
empty = record { profiles = []; disk = none }

first_saved : (run codec healthy (do_add home) empty).failure ≡ none
unfolding run add index_of index_from text_eq save encode_few
first_saved = refl

-- A second profile of the same ID is refused.
second_refused : (run codec healthy (do_add home) store).failure ≡ some exists
unfolding run add index_of index_from text_eq
second_refused = refl

home_removed : (run codec healthy (do_remove (codes "h")) store).failure ≡ none
unfolding run remove index_of index_from text_eq save encode_few
home_removed = refl

run-remap_example :
    WellFormed (run codec healthy (do_remove (codes "h")) store).store.profiles
    × Promise codec healthy
        (do_remove (codes "h"))
        store
        (run codec healthy (do_remove (codes "h")) store)
run-remap_example = run-remap codec healthy (do_remove (codes "h")) store home-WellFormed

abbrev node : Node
node = record {
  protocol = vless;
  name = codes "n";
  server = codes "h";
  port = pos 443;
  uuid = [];
  password = [];
  method = [];
  flow = [];
  security = [];
  alter_id = pos 0;
  tls = none;
  transport = none;
  obfs = none;
  wire_guard = none;
  extra = [];
}

abbrev decimal : ℤ → Text
decimal i = codes "443"

node-Sized : Sized (identity decimal node)
unfolding Sized identity wire_guard_fields tls_fields reality_fields transport_fields
node-Sized = ground arith

identity-same_example : identity decimal node ≡ identity decimal (record node { name = codes "m" })
unfolding identity
identity-same_example =
    identity-same decimal node (record node { name = codes "m" }) node-Sized node-Sized refl
