-- ===== src/Profile/Store/Synced.antt =====
-- The profiles in memory and the file of core/profile/store.go, over its operations.
use tenebra.Prelude.{
  ℕ, suc, Bool-cases, Option, none, some, Option-cases, List, [], ◌∷◌, ◌++◌, Text, codes, text_eq,
  text_eq_iff, length, get_elem?, take, drop, set, ◌≡◌, ◌≢◌, ◌⊎◌, inl, inr, refl, arith,
}
use tenebra.Profile.{Profile}
use tenebra.Profile.Store.Places.{take-all, set-set, restored-same, index_of-In}
use tenebra.Profile.Store.{
  Codec, Failure, Fault, healthy, at_create, at_write, at_sync, at_close, at_rename, encode_failed,
  create_failed, write_failed, sync_failed, close_failed, rename_failed, Disk, Store, Done,
  index_of, write_file, settle, refuse, write_encoded, save, parse, load, add, update_at, update,
  remove_at, remove,
}

pub data Op : Type 0 where
  do_add do_update : Profile → Op
  do_remove : Text → Op

-- What an operation that succeeds makes of the profiles.
pub data Applies : Op → List Profile → List Profile → Type 0 where
  added :
      {ps : List Profile} {p : Profile}
      → p.id ≢ codes ""
      → index_of ps p.id ≡ none
      → Applies (do_add p) ps (ps ++ p ∷ [])
  updated :
      {ps : List Profile} {p : Profile} {i : ℕ}
      → p.id ≢ codes ""
      → index_of ps p.id ≡ some i
      → Applies (do_update p) ps (set ps i p)
  removed :
      {ps : List Profile} {id : Text} {i : ℕ}
      → index_of ps id ≡ some i
      → Applies (do_remove id) ps (take i ps ++ drop (suc i) ps)

-- Why an operation fails: it applies to nothing, a call of the save fails, or what it makes of the
-- profiles cannot be encoded.
pub data Stops (c : Codec) (f : Fault) (o : Op) (ps : List Profile) : Type 0 where
  refused : ((after : List Profile) → Applies o ps after → ⊥) → Stops c f o ps
  faulty : f ≢ healthy → Stops c f o ps
  unencodable : {after : List Profile} → Applies o ps after → c.encode after ≡ none → Stops c f o ps

added-free :
    {p : Profile} {ps after : List Profile}
    → Applies (do_add p) ps after
    → (p.id ≢ codes "") × (index_of ps p.id ≡ none)
added-free (added named free) = (named, free)

updated-here :
    {p : Profile} {ps after : List Profile}
    → Applies (do_update p) ps after
    → (p.id ≢ codes "") × ((i : ℕ) × (index_of ps p.id ≡ some i))
updated-here (updated named here) = (named, (_, here))

removed-here :
    {id : Text} {ps after : List Profile}
    → Applies (do_remove id) ps after
    → (i : ℕ) × (index_of ps id ≡ some i)
removed-here (removed here) = (_, here)

module _ (c : Codec) where
  unfoldable pub run : Fault → Op → Store → Done
  run f (do_add p) s = add c f s p
  run f (do_update p) s = update c f s p
  run f (do_remove id) s = remove c f s id

  load-encoded :
      (ps : List Profile) (d : Text) → c.encode ps ≡ some d → load c (some d) ≡ (some ps, none)
  unfolding load parse
  load-encoded ps [] e = absurd (c.encode_lem ps [] e refl)
  load-encoded ps (b ∷ d) e = rw (c.decode-encode ps (b ∷ d) e) refl

  -- A save either writes what a load reads back, or fails and leaves the file.
  module _ (P : Done → Type 0) (f : Fault) (s : Store) (after : List Profile)
      (failed : (e : Failure)
        → (f ≢ healthy) ⊎ (c.encode after ≡ none)
        → P (record { store = s; failure = some e }))
      (saved : (d : Disk)
        → load c d ≡ (some after, none)
        → P (record { store = record { profiles = after; disk = d }; failure = none })) where
    settle-written :
        (f' : Fault) (d : Text)
        → f' ≡ f
        → c.encode after ≡ some d
        → P (settle after s.profiles (write_file f' d s.disk))
    unfolding settle write_file
    settle-written healthy d q e = saved (some d) (load-encoded after d e)
    settle-written at_create d q e = failed create_failed (inl (λ h. cc))
    settle-written at_write d q e = failed write_failed (inl (λ h. cc))
    settle-written at_sync d q e = failed sync_failed (inl (λ h. cc))
    settle-written at_close d q e = failed close_failed (inl (λ h. cc))
    settle-written at_rename d q e = failed rename_failed (inl (λ h. cc))

    settle-encoded :
        (data' : Option Text)
        → c.encode after ≡ data'
        → P (settle after s.profiles (write_encoded c f s.disk data'))
    unfolding write_encoded settle
    settle-encoded none e = failed encode_failed (inr e)
    settle-encoded (some d) e = settle-written f d refl e

    settle-save :
        (back : List Profile) → back ≡ s.profiles → P (settle after back (save c f after s.disk))
    unfolding save
    settle-save back same = rw same (settle-encoded (c.encode after) refl)

  -- An operation fails and leaves the store, or applies and leaves what a load reads back.
  module _ (P : Done → Type 0) (f : Fault) (s : Store) where
    unfoldable pub Fails : Op → Type 0
    Fails o = (e : Failure) → Stops c f o s.profiles → P (record { store = s; failure = some e })

    saving :
        (o : Op) {after : List Profile}
        → Applies o s.profiles after
        → (f ≢ healthy) ⊎ (c.encode after ≡ none)
        → Stops c f o s.profiles
    saving o a (inl h) = faulty h
    saving o a (inr e) = unencodable a e

    unfoldable pub Saves : Op → Type 0
    Saves o =
        (after : List Profile) (d : Disk)
        → Applies o s.profiles after
        → load c d ≡ (some after, none)
        → P (record { store = record { profiles = after; disk = d }; failure = none })

    add-ind : (p : Profile) → Fails (do_add p) → Saves (do_add p) → P (add c f s p)
    unfolding add refuse Saves Fails
    add-ind p failed saved = elim (Bool-cases (text_eq p.id (codes ""))) [
      | inl e ↦ rw e (
          failed Failure.empty_id
            (refused (λ after a. (added-free a).0 ((text_eq_iff p.id (codes "")).0 e))))
      | inr e ↦ rw e (elim (Option-cases (index_of s.profiles p.id)) [
        | inl free ↦
            let a = added (λ q. ground (arith, text_eq_iff p.id (codes ""))) free in
            rw (free, add)
              (settle-save P f s (s.profiles ++ p ∷ []) (λ x w. failed x (saving (do_add p) a w))
                (λ d reads. saved _ d a reads) (take (length s.profiles) (s.profiles ++ p ∷ []))
                (take-all s.profiles p))
        | inr (i, taken) ↦
            rw (taken, add)
              (failed Failure.exists (refused (λ after a. let free = (added-free a).1 in cc)))
      ])
    ]

    update-ind : (p : Profile) → Fails (do_update p) → Saves (do_update p) → P (update c f s p)
    unfolding update update_at refuse Saves Fails
    update-ind p failed saved = elim (Bool-cases (text_eq p.id (codes ""))) [
      | inl e ↦ rw e (
          failed Failure.empty_id
            (refused (λ after a. (updated-here a).0 ((text_eq_iff p.id (codes "")).0 e))))
      | inr e ↦ rw e (elim (Option-cases (index_of s.profiles p.id)) [
        | inl free ↦
            rw (free, update)
              (failed Failure.not_found
                (refused (λ after a. let (i, here) = (updated-here a).1 in cc)))
        | inr (i, here) ↦
            let a = updated (λ q. ground (arith, text_eq_iff p.id (codes ""))) here in
            elim (Option-cases (get_elem? s.profiles i)) [
              | inl out ↦ absurd (index_of-In s.profiles p.id i here out)
              | inr (prev, at) ↦
                  rw (here, update)
                    (rw (at, update)
                      (settle-save P f s (set s.profiles i p)
                        (λ x w. failed x (saving (do_update p) a w)) (λ d reads. saved _ d a reads)
                        (set (set s.profiles i p) i prev) (set-set s.profiles i p prev at)))
            ]
      ])
    ]

    remove-ind : (id : Text) → Fails (do_remove id) → Saves (do_remove id) → P (remove c f s id)
    unfolding remove remove_at refuse Saves Fails
    remove-ind id failed saved = elim (Option-cases (index_of s.profiles id)) [
      | inl free ↦
          rw (free, remove)
            (failed Failure.not_found (refused (λ after a. let (i, here) = removed-here a in cc)))
      | inr (i, here) ↦ elim (Option-cases (get_elem? s.profiles i)) [
        | inl out ↦ absurd (index_of-In s.profiles id i here out)
        | inr (prev, at) ↦
            rw (here, remove)
              (rw (at, remove)
                (settle-save P f s (take i s.profiles ++ drop (suc i) s.profiles)
                  (λ x w. failed x (saving (do_remove id) (removed here) w))
                  (λ d reads. saved _ d (removed here) reads) _
                  (restored-same s.profiles i prev at)))
      ]
    ]

    pub run-ind : (o : Op) → Fails o → Saves o → P (run f o s)
    unfolding run
    run-ind (do_add p) failed saved = add-ind p failed saved
    run-ind (do_update p) failed saved = update-ind p failed saved
    run-ind (do_remove id) failed saved = remove-ind id failed saved

  -- A load of the file gives the profiles in memory.
  unfoldable pub InSync : Store → Type 0
  InSync s = load c s.disk ≡ (some s.profiles, none)

  -- An operation on a store in step with its file either fails and leaves the profiles and the
  -- file as they were, whichever call fails, or returns no error and applies to the profiles as
  -- it means to; in both cases the store is in step with its file.
  pub run_lem :
      (f : Fault) (o : Op) (s : Store)
      → InSync s
      → InSync (run f o s).store
        × (((run f o s).store ≡ s) × ((e : Failure) × ((run f o s).failure ≡ some e))
            ⊎ Applies o s.profiles (run f o s).store.profiles × ((run f o s).failure ≡ none))
  unfolding InSync Saves Fails
  run_lem f o s sync =
      run-ind
        (λ (r : Done).
          InSync r.store
          × ((r.store ≡ s) × ((e : Failure) × (r.failure ≡ some e))
              ⊎ Applies o s.profiles r.store.profiles × (r.failure ≡ none)))
        f s o (λ e _. (sync, inl (refl, (e, refl))))
        (λ after d applies reads. (reads, inr (applies, refl)))
