-- ===== src/Control/Probe/Measured.antt =====
-- What a result of `probeUntilUp` of core/control/connect.go rests on.
use tenebra.Prelude.{
  ℕ, Bool, true, false, not, ◌||◌, Bool-cases, List, [], ◌∷◌, In, ◌≡◌, ◌⊎◌, inl, inr, refl, leb,
  arith,
}
use tenebra.Control.Probe.{
  Wait, budget_over, exited, retry, Answer, answered, no_answer, Round, Probed, Next, again, stop,
  probe_round, probe_loop, probe_until_up, after_select, after_probe, measured, stall_threshold,
}

-- The round carried traffic through the process while the generation was the current one.
pub record IsUp (r : Round) : Type 0 where
  pub was_current : r.current ≡ true
  pub alive : r.exited ≡ false
  pub carried : r.answer ≡ answered
  pub is_current : r.still_current ≡ true

-- What a round that ends the loop with `up`, or that goes on with the selector pinned, says.
abbrev Says : Round → Bool → Next → Type 0
Says r pinned (stop p) = p.up ≡ true → IsUp r × ((pinned || r.selected) ≡ true)
Says r pinned (again pinned' stalled) = pinned' ≡ true → (pinned || r.selected) ≡ true

after_select-Says :
    (r : Round) (pinned : Bool) (w : Wait) (stalled : Bool) → Says r pinned (after_select w stalled)
unfolding after_select
after_select-Says r pinned budget_over stalled = λ u. cc
after_select-Says r pinned exited stalled = λ u. cc
after_select-Says r pinned retry stalled = λ u. cc

waited :
    (r : Round) (pinned : Bool) (w : Wait) (stalled : Bool)
    → (pinned || r.selected) ≡ true
    → Says r pinned (after_probe w stalled)
unfolding after_probe
waited r pinned budget_over stalled p = λ u. cc
waited r pinned exited stalled p = λ u. cc
waited r pinned retry stalled p = λ u. p

measured-Says :
    (timeout : ℕ) (r : Round) (pinned : Bool) (answer : Answer)
    → r.answer ≡ answer
    → r.current ≡ true
    → r.exited ≡ false
    → (pinned || r.selected) ≡ true
    → Says r pinned (measured timeout r answer)
unfolding measured
measured-Says timeout r pinned answered e cur ex pin =
    λ u. (record { was_current = cur; alive = ex; carried = e; is_current = u }, pin)
measured-Says timeout r pinned (no_answer elapsed) e cur ex pin =
    waited r pinned r.probe_wait (leb (stall_threshold timeout) elapsed) pin

round-Says :
    (timeout : ℕ) (r : Round) (pinned stalled : Bool)
    → Says r pinned (probe_round timeout r pinned stalled)
unfolding probe_round
round-Says timeout r pinned stalled = elim (Bool-cases (not r.current || r.exited)) [
  | inl t ↦ rw t (λ u. cc)
  | inr f ↦ elim (Bool-cases (pinned || r.selected)) [
    | inl p ↦
        rw (f, p) (measured-Says timeout r pinned r.answer refl (ground arith) (ground arith) p)
    | inr n ↦ rw (f, n) (after_select-Says r pinned r.select_wait stalled)
  ]
]

next_cases :
    (n : Next)
    → ((p : Probed) × (n ≡ stop p))
      ⊎ ((pinned : Bool) × (stalled : Bool) × (n ≡ again pinned stalled))
next_cases (stop p) = inl (p, refl)
next_cases (again pinned stalled) = inr (pinned, stalled, refl)

-- A round that carried traffic, and the selector pinned before the rounds or in one of them.
abbrev pub Reached : List Round → Bool → Type 0
Reached rounds pinned =
    ((r : Round) × In r rounds × IsUp r)
    × ((pinned ≡ true) ⊎ ((r : Round) × In r rounds × (r.selected ≡ true)))

pinned_by :
    (r : Round) (rs : List Round) (pinned : Bool)
    → (pinned || r.selected) ≡ true
    → (pinned ≡ true) ⊎ ((r' : Round) × In r' (r ∷ rs) × (r'.selected ≡ true))
pinned_by r rs true h = inl refl
pinned_by r rs false h = inr (r, inl refl, h)

probe_loop-Reached :
    (timeout : ℕ) (rs : List Round) (pinned stalled : Bool)
    → (probe_loop timeout rs pinned stalled).up ≡ true
    → Reached rs pinned
unfolding probe_loop
probe_loop-Reached timeout [] pinned stalled h = cc
probe_loop-Reached timeout (r ∷ rs) pinned stalled h =
    let says = round-Says timeout r pinned stalled in
    elim (next_cases (probe_round timeout r pinned stalled)) [
      | inl (p, e) ↦
          let (is_up, pin) = (rw e at says) (rw (e, probe_loop) at h) in
          ((r, inl refl, is_up), pinned_by r rs pinned pin)
      | inr (pinned', stalled', e) ↦
          let ((r', i, is_up), pin) =
            probe_loop-Reached timeout rs pinned' stalled' (rw (e, probe_loop) at h) in
          (
            (r', inr i, is_up),
            elim pin [
              | inl t ↦ pinned_by r rs pinned ((rw e at says) t)
              | inr (q, j, s) ↦ inr (q, inr j, s)
            ],
          )
    ]

-- `probeUntilUp` says that a node is up only if in some round, before its budget is over, a probe
-- through the selector was answered while the process ran and the generation was the current one,
-- before the probe and behind it; and only if the selector was pinned to the wanted tag, where
-- there is one.
pub probe_until_up-Reached :
    (timeout : ℕ) (warm untagged : Bool) (rounds : List Round)
    → (probe_until_up timeout warm untagged rounds).up ≡ true
    → Reached rounds untagged
unfolding probe_until_up
probe_until_up-Reached timeout true untagged rounds h =
    probe_loop-Reached timeout rounds untagged false h
probe_until_up-Reached timeout false untagged rounds h = cc
