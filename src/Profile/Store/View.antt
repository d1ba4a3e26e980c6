-- ===== src/Profile/Store/View.antt =====
-- core/profile/store.go as a map from IDs to profiles.
use tenebra.Prelude.{
  ℕ, suc, true, false, Bool-cases, Option, none, some, Option-cases, List, [], ◌∷◌, ◌++◌, Text,
  codes, text_eq, text_eq_iff, text_eq_refl, get_elem?, take, drop, set, ◌≡◌, ◌≢◌, ◌⊎◌, inl, inr,
  refl, sym, ap, ◌∙◌, if◌then◌else◌, arith,
}
use tenebra.Profile.{Profile}
use tenebra.Profile.Store.{Store, index_from, index_of, get}
use tenebra.Profile.Store.Synced.{
  Op, do_add, do_update, do_remove, Applies, added, updated, removed,
}

-- The first profile with an ID.
unfoldable pub look : List Profile → Text → Option Profile
look [] id = none
look (p ∷ ps) id = if text_eq p.id id then some p else look ps id

later : Option ℕ → Option ℕ
later none = none
later (some i) = some (suc i)

index_from-suc :
    (k : ℕ) (id : Text) (ps : List Profile) → index_from (suc k) id ps ≡ later (index_from k id ps)
unfolding index_from later
index_from-suc k id [] = refl
index_from-suc k id (p ∷ ps) = elim (Bool-cases (text_eq p.id id)) [
  | inl e ↦ rw e refl
  | inr e ↦ rw e (index_from-suc (suc k) id ps)
]

at : List Profile → Option ℕ → Option Profile
at ps none = none
at ps (some i) = get_elem? ps i

at-later : (p : Profile) (ps : List Profile) (i : Option ℕ) → at (p ∷ ps) (later i) ≡ at ps i
unfolding at later
at-later p ps none = refl
at-later p ps (some i) = refl

look-index : (ps : List Profile) (id : Text) → at ps (index_of ps id) ≡ look ps id
unfolding index_of index_from look at
look-index [] id = refl
look-index (p ∷ ps) id = elim (Bool-cases (text_eq p.id id)) [
  | inl e ↦ rw e refl
  | inr e ↦ rw e (
      ap (at (p ∷ ps)) (index_from-suc 0 id ps)
      ∙ at-later p ps (index_from 0 id ps)
      ∙ look-index ps id)
]

pub get-look : (s : Store) (id : Text) → get s id ≡ look s.profiles id
unfolding get at
get-look s id = look-index s.profiles id

-- The IDs are distinct, and none is empty.
unfoldable pub WellFormed : List Profile → Type 0
WellFormed [] = Unit
WellFormed (p ∷ ps) = (p.id ≢ codes "") × (look ps p.id ≡ none) × WellFormed ps

-- What an operation makes of the map.
unfoldable pub remap : Op → (Text → Option Profile) → Text → Option Profile
remap (do_add p) m id = if text_eq p.id id then some p else m id
remap (do_update p) m id = if text_eq p.id id then some p else m id
remap (do_remove key) m id = if text_eq key id then none else m id

pub index-none : (ps : List Profile) (id : Text) → index_of ps id ≡ none → look ps id ≡ none
unfolding at
index-none ps id e = sym (look-index ps id) ∙ rw e refl

-- The place of an ID: the first profile has it, or another one and the place is further on.
index_of-cons :
    (p : Profile) (ps : List Profile) (id : Text) (i : ℕ)
    → index_of (p ∷ ps) id ≡ some i
    → ((text_eq p.id id ≡ true) × (i ≡ 0))
      ⊎ ((text_eq p.id id ≡ false) × ((j : ℕ) × (i ≡ suc j) × (index_of ps id ≡ some j)))
unfolding index_of index_from later
index_of-cons p ps id i e = elim (Bool-cases (text_eq p.id id)) [
  | inl t ↦ inl (t, ground arith)
  | inr f ↦ elim (Option-cases (index_from 0 id ps)) [
    | inl out ↦ absurd (ground (arith, index_from-suc 0 id ps))
    | inr (j, here) ↦ inr (f, (j, ground (arith, index_from-suc 0 id ps), here))
  ]
]

look-append :
    (ps : List Profile) (p : Profile) (q : Text)
    → look ps p.id ≡ none
    → look (ps ++ p ∷ []) q ≡ (if text_eq p.id q then some p else look ps q)
unfolding look
look-append [] p q free = refl
look-append (x ∷ ps) p q free = ground (
  arith,
  look-append ps p q,
  text_eq_iff x.id q,
  text_eq_iff p.id q,
  text_eq_iff x.id p.id,
  text_eq_refl q,
)

append-WellFormed :
    (ps : List Profile) (p : Profile)
    → p.id ≢ codes ""
    → look ps p.id ≡ none
    → WellFormed ps
    → WellFormed (ps ++ p ∷ [])
unfolding WellFormed look
append-WellFormed [] p named free w = (named, refl, tt)
append-WellFormed (x ∷ ps) p named free w = (
  w.0,
  ground (arith, look-append ps p x.id, text_eq_iff x.id p.id, text_eq_iff p.id x.id, w.1),
  append-WellFormed ps p named (ground arith) w.2,
)

look-set :
    (ps : List Profile) (p : Profile) (i : ℕ) (q : Text)
    → index_of ps p.id ≡ some i
    → look (set ps i p) q ≡ (if text_eq p.id q then some p else look ps q)
unfolding look
look-set [] p i q e = absurd (unfold index_of index_from in cc)
look-set (x ∷ ps) p i q e = elim (index_of-cons x ps p.id i e) [
  | inl (same, first) ↦
      rw first (ground (arith, text_eq_iff x.id p.id, text_eq_iff p.id q, text_eq_iff x.id q))
  | inr (other, (j, next, e')) ↦ rw next (
      ground (
        arith,
        look-set ps p j q e',
        text_eq_iff x.id p.id,
        text_eq_iff p.id q,
        text_eq_iff x.id q,
      ))
]

set-WellFormed :
    (ps : List Profile) (p : Profile) (i : ℕ)
    → p.id ≢ codes ""
    → index_of ps p.id ≡ some i
    → WellFormed ps
    → WellFormed (set ps i p)
unfolding WellFormed
set-WellFormed [] p i named e w = tt
set-WellFormed (x ∷ ps) p i named e w = elim (index_of-cons x ps p.id i e) [
  | inl (same, first) ↦ rw first (named, rw ((text_eq_iff x.id p.id).0 same) at w.1, w.2)
  | inr (other, (j, next, e')) ↦ rw next (
    w.0,
    ground (arith, look-set ps p j x.id e', w.1, text_eq_iff x.id p.id, text_eq_iff p.id x.id),
    set-WellFormed ps p j named e' w.2,
  )
]

look-remove :
    (ps : List Profile) (id : Text) (i : ℕ) (q : Text)
    → index_of ps id ≡ some i
    → WellFormed ps
    → look (take i ps ++ drop (suc i) ps) q ≡ (if text_eq id q then none else look ps q)
unfolding look WellFormed
look-remove [] id i q e w = absurd (unfold index_of index_from in cc)
look-remove (x ∷ ps) id i q e w = elim (index_of-cons x ps id i e) [
  | inl (same, first) ↦
      rw first (ground (arith, text_eq_iff x.id id, text_eq_iff id q, text_eq_iff x.id q, w.1))
  | inr (other, (j, next, e')) ↦ rw next (
      ground (
        arith,
        look-remove ps id j q e' w.2,
        text_eq_iff x.id id,
        text_eq_iff id q,
        text_eq_iff x.id q,
      ))
]

remove-WellFormed :
    (ps : List Profile) (id : Text) (i : ℕ)
    → index_of ps id ≡ some i
    → WellFormed ps
    → WellFormed (take i ps ++ drop (suc i) ps)
unfolding WellFormed
remove-WellFormed [] id i e w = absurd (unfold index_of index_from in cc)
remove-WellFormed (x ∷ ps) id i e w = elim (index_of-cons x ps id i e) [
  | inl (same, first) ↦ rw first w.2
  | inr (other, (j, next, e')) ↦ rw next (
    w.0,
    ground (arith, look-remove ps id j x.id e' w.2, w.1, text_eq_iff x.id id, text_eq_iff id x.id),
    remove-WellFormed ps id j e' w.2,
  )
]

pub applied-WellFormed :
    (o : Op) (ps after : List Profile) → WellFormed ps → Applies o ps after → WellFormed after
applied-WellFormed (do_add p) ps _ w (added named free) =
    append-WellFormed ps p named (index-none ps p.id free) w
applied-WellFormed (do_update p) ps _ w (updated {i = i} named here) =
    set-WellFormed ps p i named here w
applied-WellFormed (do_remove id) ps _ w (removed {i = i} here) = remove-WellFormed ps id i here w

pub applied-look :
    (o : Op) (ps after : List Profile)
    → WellFormed ps
    → Applies o ps after
    → (id : Text) → look after id ≡ remap o (look ps) id
unfolding remap
applied-look (do_add p) ps _ w (added named free) id = look-append ps p id (index-none ps p.id free)
applied-look (do_update p) ps _ w (updated {i = i} named here) id = look-set ps p i id here
applied-look (do_remove key) ps _ w (removed {i = i} here) id = look-remove ps key i id here w

pub remap-look :
    (o : Op) (s : Store) (id : Text) → remap o (get s) id ≡ remap o (look s.profiles) id
unfolding remap
remap-look (do_add p) s id = rw (get-look s id) refl
remap-look (do_update p) s id = rw (get-look s id) refl
remap-look (do_remove key) s id = rw (get-look s id) refl

pub look-none : (ps : List Profile) (id : Text) → look ps id ≡ none → index_of ps id ≡ none
unfolding look index_of index_from later
look-none [] id e = refl
look-none (p ∷ ps) id e = elim (Bool-cases (text_eq p.id id)) [
  | inl y ↦ cc (rw y at e)
  | inr n ↦ rw n (index_from-suc 0 id ps ∙ ap later (look-none ps id (rw n at e)))
]
