-- ===== src/Control/Recovery/Budget.antt =====
-- How often the daemon moves the exit on its own.
use tenebra.Prelude.{
  ℕ, ◌+◌, ◌≤◌, ◌<◌, true, false, ◌&&◌, Bool-cases, List, [], ◌∷◌, ◌++◌, keep, length, length-append,
  keep-append, length-keep, ◌≡◌, refl, sym, ap, ◌∙◌, inl, inr, arith,
}
use tenebra.Control.Recovery.{
  Limits, is_recent, is_cooling, Checked, allow_auto_recovery, Attempted, History, settle, recover,
  recover_all, fresh,
}

-- What is recent later is recent now.
keep-later :
    (l : Limits) (t now : ℕ)
    → t ≤ now
    → (xs : List ℕ) → keep (is_recent l now) (keep (is_recent l t) xs) ≡ keep (is_recent l now) xs
keep-later l t now le [] = refl
keep-later l t now le (x ∷ xs) = ground (arith, keep-later l t now le xs)

cooling-tail :
    (l : Limits) (now t : ℕ) (xs : List ℕ)
    → is_cooling l now (t ∷ xs) ≡ false
    → is_cooling l now xs ≡ false
unfolding is_cooling
cooling-tail l now t [] e = refl
cooling-tail l now t (x ∷ xs) e = e

-- A move that is no longer recent does not cool, where the cooldown is within the window.
cooling-keep :
    (l : Limits) (now : ℕ)
    → l.cooldown ≤ l.window
    → (xs : List ℕ) → is_cooling l now (keep (is_recent l now) xs) ≡ false
    → is_cooling l now xs ≡ false
unfolding is_cooling
cooling-keep l now le [] e = refl
cooling-keep l now le (t ∷ []) e = ground arith
cooling-keep l now le (t ∷ u ∷ us) e =
    cooling-keep l now le (u ∷ us) (elim (Bool-cases (is_recent l now t)) [
      | inl y ↦ cooling-tail l now t (keep (is_recent l now) (u ∷ us)) (rw y at e)
      | inr n ↦ rw n at e
    ])

-- Each move lies a cooldown or more behind the one before it.
unfoldable pub IsSpaced : ℕ → List ℕ → Type 0
IsSpaced gap [] = Unit
IsSpaced gap (t ∷ []) = Unit
IsSpaced gap (t ∷ u ∷ us) = (t + gap ≤ u) × IsSpaced gap (u ∷ us)

append-IsSpaced :
    (l : Limits) (now next : ℕ) (xs : List ℕ)
    → IsSpaced l.cooldown xs
    → is_cooling l now xs ≡ false
    → now ≤ next
    → IsSpaced l.cooldown (xs ++ (next ∷ []))
unfolding IsSpaced is_cooling
append-IsSpaced l now next [] s e le = tt
append-IsSpaced l now next (t ∷ []) s e le = (ground arith, tt)
append-IsSpaced l now next (t ∷ u ∷ us) s e le = (s.0, append-IsSpaced l now next (u ∷ us) s.1 e le)

-- The clock does not go back between the checks and the records.
abbrev pub IsTimed : ℕ → List Attempted → Type 0
IsTimed t [] = Unit
IsTimed t (a ∷ rest) = (t ≤ a.now) × (a.now ≤ a.recorded_at) × IsTimed a.recorded_at rest

-- When the last of the records is made, if there is one.
abbrev pub end_of : ℕ → List Attempted → ℕ
end_of t [] = t
end_of t (a ∷ rest) = end_of a.recorded_at rest

-- From a time on, the state holds the moves that are recent, and they are within the budget.
pub record Inv (l : Limits) (t : ℕ) (h : History) : Type 0 where
  pub within : length h.recovery.switches ≤ l.max_switches
  pub known :
      (now : ℕ)
      → t ≤ now
      → keep (is_recent l now) h.moves ≡ keep (is_recent l now) h.recovery.switches
  pub spaced : l.cooldown ≤ l.window → IsSpaced l.cooldown h.moves

-- What a check leaves.
record CheckedInv (l : Limits) (t : ℕ) (c : Checked) (moves : List ℕ) : Type 0 where
  within : length c.recovery.switches ≤ l.max_switches
  room : c.allowed ≡ true → length c.recovery.switches < l.max_switches
  known :
      (now : ℕ)
      → t ≤ now
      → keep (is_recent l now) moves ≡ keep (is_recent l now) c.recovery.switches
  clear : l.cooldown ≤ l.window → c.allowed ≡ true → is_cooling l t moves ≡ false
  spaced : l.cooldown ≤ l.window → IsSpaced l.cooldown moves

allow-Inv :
    (l : Limits) (t : ℕ) (a : Attempted) (h : History)
    → t ≤ a.now
    → Inv l t h
    → CheckedInv l a.now
        (allow_auto_recovery l a.session a.generation a.profile a.degraded a.now h.recovery)
        h.moves
unfolding allow_auto_recovery
allow-Inv l t a h le i =
    let recent = keep (is_recent l a.now) h.recovery.switches in
    record {
      within =
          let short = length-keep (is_recent l a.now) h.recovery.switches in
          let fits = i.within in omega arith;
      room = λ e. ground arith;
      known = λ now later.
          i.known now (omega arith) ∙ sym (keep-later l a.now now later h.recovery.switches);
      clear = λ short e. cooling-keep l a.now short h.moves (rw (i.known a.now le) (ground arith));
      spaced = i.spaced;
    }

settle-Inv :
    (l : Limits) (t : ℕ) (a : Attempted) (c : Checked) (moves : List ℕ)
    → t ≤ a.recorded_at
    → CheckedInv l t c moves
    → Inv l a.recorded_at (settle a c moves)
unfolding settle
settle-Inv l t a c moves le i = elim (Bool-cases (c.allowed && a.carried_out)) [
  | inl y ↦ rw y (record {
    within =
        let room = i.room (ground arith) in
        let more = length-append c.recovery.switches (a.recorded_at ∷ []) in omega arith;
    known = λ now later.
        keep-append (is_recent l now) moves (a.recorded_at ∷ [])
        ∙ ap (λ xs. xs ++ keep (is_recent l now) (a.recorded_at ∷ [])) (i.known now (omega arith))
        ∙ sym (keep-append (is_recent l now) c.recovery.switches (a.recorded_at ∷ []));
    spaced = λ short.
        append-IsSpaced l t a.recorded_at moves (i.spaced short) (i.clear short (ground arith)) le;
  })
  | inr n ↦ rw n (record {
    within = i.within;
    known = λ now later. i.known now (omega arith);
    spaced = i.spaced;
  })
]

recover_all-Inv :
    (l : Limits) (t : ℕ) (tries : List Attempted) (h : History)
    → IsTimed t tries
    → Inv l t h
    → Inv l (end_of t tries) (recover_all l tries h)
unfolding recover_all recover
recover_all-Inv l t [] h timed i = i
recover_all-Inv l t (a ∷ rest) h timed i =
    recover_all-Inv l a.recorded_at rest (recover l a h) timed.2 (
      settle-Inv l a.now a
        (allow_auto_recovery l a.session a.generation a.profile a.degraded a.now h.recovery) h.moves
        timed.1 (allow-Inv l t a h timed.0 i))

fresh-Inv : (l : Limits) → Inv l 0 fresh
unfolding IsSpaced
fresh-Inv l = record { within = omega arith; known = λ n le. refl; spaced = λ short. tt }

-- However the checks and the moves follow one another, on a clock that does not go back: from the
-- last record on, of all the moves that the daemon ever made on its own, those that lie within one
-- window before now are at most as many as the budget allows.
pub recover_all-budget :
    (l : Limits) (tries : List Attempted) (now : ℕ)
    → IsTimed 0 tries
    → end_of 0 tries ≤ now
    → length (keep (is_recent l now) (recover_all l tries fresh).moves) ≤ l.max_switches
recover_all-budget l tries now timed later =
    let h = recover_all l tries fresh in
    let i = recover_all-Inv l 0 tries fresh timed (fresh-Inv l) in
    let short = length-keep (is_recent l now) h.recovery.switches in
    let fits = i.within in rw (i.known now later) (omega arith)

-- However the checks and the moves follow one another, on a clock that does not go back, and where
-- the cooldown is at most the window: each move that the daemon makes on its own is recorded a
-- cooldown or more after the one before it.
pub recover_all-IsSpaced :
    (l : Limits) (tries : List Attempted)
    → IsTimed 0 tries
    → l.cooldown ≤ l.window
    → IsSpaced l.cooldown (recover_all l tries fresh).moves
recover_all-IsSpaced l tries timed short =
    (recover_all-Inv l 0 tries fresh timed (fresh-Inv l)).spaced short
