-- ===== src/Profile/Store/Mapped.antt =====
-- `Add`, `Update` and `Remove` of core/profile/store.go on the map from IDs to profiles.
use tenebra.Prelude.{
  ℕ, Option, none, some, Option-cases, List, Text, codes, ◌≡◌, ◌≢◌, ◌⊎◌, inl, inr, refl, sym, ◌∙◌,
}
use tenebra.Profile.{Profile}
use tenebra.Profile.Store.{Codec, Failure, Fault, healthy, Store, Done, index_of, get}
use tenebra.Profile.Store.Synced.{
  Op, do_add, do_update, do_remove, Applies, added, updated, removed, Stops, refused, faulty,
  unencodable, run, run-ind, Fails, Saves,
}
use tenebra.Profile.Store.View.{
  look, WellFormed, remap, get-look, index-none, look-none, applied-WellFormed, applied-look,
  remap-look,
}

-- What an operation asks of the map.
abbrev pub Accepts : Op → (Text → Option Profile) → Type 0
Accepts (do_add p) m = (p.id ≢ codes "") × (m p.id ≡ none)
Accepts (do_update p) m = (p.id ≢ codes "") × (m p.id ≢ none)
Accepts (do_remove id) m = m id ≢ none

get-none : (s : Store) (id : Text) → get s id ≡ none → index_of s.profiles id ≡ none
get-none s id e = look-none s.profiles id (sym (get-look s id) ∙ e)

none-get : (s : Store) (id : Text) → index_of s.profiles id ≡ none → get s id ≡ none
none-get s id e = get-look s id ∙ index-none s.profiles id e

get-here : (s : Store) (id : Text) → get s id ≢ none → (i : ℕ) × (index_of s.profiles id ≡ some i)
get-here s id h = elim (Option-cases (index_of s.profiles id)) [
  | inl e ↦ absurd (h (none-get s id e))
  | inr here ↦ here
]

here-get : (s : Store) (id : Text) (i : ℕ) → index_of s.profiles id ≡ some i → get s id ≢ none
here-get s id i here e = let free = get-none s id e in cc

applied-Accepts :
    (o : Op) (s : Store) (after : List Profile) → Applies o s.profiles after → Accepts o (get s)
applied-Accepts (do_add p) s _ (added named free) = (named, none-get s p.id free)
applied-Accepts (do_update p) s _ (updated {i = i} named here) = (named, here-get s p.id i here)
applied-Accepts (do_remove id) s _ (removed {i = i} here) = here-get s id i here

Accepts-applied :
    (o : Op) (s : Store) → Accepts o (get s) → (after : List Profile) × Applies o s.profiles after
Accepts-applied (do_add p) s a = (_, added a.0 (get-none s p.id a.1))
Accepts-applied (do_update p) s a = (_, updated a.0 (get-here s p.id a.1).1)
Accepts-applied (do_remove id) s a = (_, removed (get-here s id a).1)

-- What a store holds is what the operation makes of the map.
abbrev pub Remaps : Op → Store → List Profile → Type 0
Remaps o s after = (id : Text) → look after id ≡ remap o (get s) id

applied-Remaps :
    (o : Op) (s : Store) (after : List Profile)
    → WellFormed s.profiles
    → Applies o s.profiles after
    → Remaps o s after
applied-Remaps o s after w a id = applied-look o s.profiles after w a id ∙ sym (remap-look o s id)

-- Why an operation may fail: the map does not allow it, a call of the save fails, or there is no
-- encoding of what it makes of the map.
abbrev pub Excused : Codec → Fault → Op → Store → Type 0
Excused c f o s =
    (Accepts o (get s) → ⊥)
    ⊎ (f ≢ healthy)
    ⊎ ((after : List Profile) × Remaps o s after × (c.encode after ≡ none))

Stops-Excused :
    (c : Codec) (f : Fault) (o : Op) (s : Store)
    → WellFormed s.profiles
    → Stops c f o s.profiles
    → Excused c f o s
Stops-Excused c f o s w (refused h) = inl (λ a. let (after, x) = Accepts-applied o s a in h after x)
Stops-Excused c f o s w (faulty h) = inr (inl h)
Stops-Excused c f o s w (unencodable {after} a e) =
    inr (inr (after, applied-Remaps o s after w a, e))

-- What `Add`, `Update` and `Remove` promise of the map from IDs to profiles.
abbrev pub Promise : Codec → Fault → Op → Store → Done → Type 0
Promise c f o s r =
    ((r.failure ≡ none) × Accepts o (get s) × ((id : Text) → get r.store id ≡ remap o (get s) id))
    ⊎ (((e : Failure) × (r.failure ≡ some e)) × (r.store ≡ s) × Excused c f o s)

-- `Add`, `Update` and `Remove`, on profiles with distinct IDs, none of them empty, leave such
-- profiles, whichever call of a save fails. Without an error, the ID was free for an added profile
-- and taken for an updated or removed one, and not empty where a profile is given, and what `Get`
-- then finds is an added or updated profile under its own ID, nothing under a removed one, and what
-- was there before under every other. With an error, the store is as it was, and this was not so,
-- or a call of the save failed, or profiles that hold what the operation makes of the map have no
-- encoding.
pub run-remap :
    (c : Codec) (f : Fault) (o : Op) (s : Store)
    → WellFormed s.profiles
    → WellFormed (run c f o s).store.profiles × Promise c f o s (run c f o s)
unfolding Fails Saves
run-remap c f o s w =
    run-ind c (λ (r : Done). WellFormed r.store.profiles × Promise c f o s r) f s o
      (λ e stops. (w, inr ((e, refl), refl, Stops-Excused c f o s w stops)))
      (λ after d a reads. (
        applied-WellFormed o s.profiles after w a,
        inl (
          refl,
          applied-Accepts o s after a,
          λ id.
              get-look (record { profiles = after; disk = d }) id ∙ applied-Remaps o s after w a id,
        ),
      ))
