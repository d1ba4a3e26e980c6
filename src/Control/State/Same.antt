-- ===== src/Control/State/Same.antt =====
-- What the snapshots of core/control/connect.go leave alone.
use tenebra.Prelude.{Bool-cases, Text, ◌≡◌, inl, inr, refl, arith}
use tenebra.Control.Tracker.{Item, Outcome, at_node}
use tenebra.Control.State.{Env, Walk, publish, track}

module _ {S H : Type 0} where
  -- The machine, the state, the guard and the host are those of the walk before.
  pub record Same (w w' : Walk S H) : Type 0 where
    pub machine : w'.machine ≡ w.machine
    pub status : w'.status ≡ w.status
    pub guard : w'.guard ≡ w.guard
    pub host : w'.host ≡ w.host

  pub Same_refl : (w : Walk S H) → Same w w
  Same_refl w = record { machine = refl; status = refl; guard = refl; host = refl }

  pub Same_trans : (u v w : Walk S H) → Same u v → Same v w → Same u w
  Same_trans u v w s t = ground arith

  pub publish-Same :
      (env : Env) (o : Outcome) (w : Walk S H)
      → Same w (publish env o w) × ((publish env o w).running ≡ w.running)
  unfolding publish
  publish-Same env o w = elim (Bool-cases (env.current w.clock)) [
    | inl t ↦ rw t (record { machine = refl; status = refl; guard = refl; host = refl }, refl)
    | inr f ↦ rw f (record { machine = refl; status = refl; guard = refl; host = refl }, refl)
  ]

  pub track-Same :
      (env : Env) (id : Text) (f : Item → Item) (o : Outcome) (w : Walk S H)
      → Same w (track env id f o w) × ((track env id f o w).running ≡ w.running)
  unfolding track
  track-Same env id f o w =
      let (s, r) = publish-Same env o (record w { items = at_node id f w.items }) in
      (record { machine = s.machine; status = s.status; guard = s.guard; host = s.host }, r)
