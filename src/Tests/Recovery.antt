-- ===== src/Tests/Recovery.antt =====
-- The budget of the moves of core/control/hotswitch.go, at concrete times.
use tenebra.Prelude.{ℕ, ◌≤◌, true, List, [], ◌∷◌, codes, keep, length, ◌≡◌, refl, arith, text_eq}
use tenebra.Control.Recovery.{
  Limits, is_recent, is_cooling, allow_auto_recovery, Attempted, settle, recover, recover_all,
  fresh,
}
use tenebra.Control.Recovery.Budget.{IsTimed, IsSpaced, recover_all-budget, recover_all-IsSpaced}

abbrev pub limits : Limits
limits = record { cooldown = 3; window = 15; max_switches = 2 }

abbrev try_at : ℕ → Attempted
try_at now = record {
  session = record { generation = 1; profile = codes "p"; connected = true; auto_failover = true };
  generation = 1;
  profile = codes "p";
  degraded = codes "n";
  now = now;
  carried_out = true;
  recorded_at = now;
}

-- The second is too early, and the fourth is over the budget, which is free again at the fifth.
abbrev tries : List Attempted
tries = try_at 1 ∷ try_at 3 ∷ try_at 6 ∷ try_at 11 ∷ try_at 17 ∷ []

moved : (recover_all limits tries fresh).moves ≡ 1 ∷ 6 ∷ 17 ∷ []
unfolding recover_all recover allow_auto_recovery settle is_cooling text_eq
moved = refl

tries-IsTimed : IsTimed 0 tries
tries-IsTimed = (
  omega arith,
  omega arith,
  (
    omega arith,
    omega arith,
    (omega arith, omega arith, (omega arith, omega arith, (omega arith, omega arith, tt))),
  ),
)

recover_all-budget_example :
    length (keep (is_recent limits 18) (recover_all limits tries fresh).moves) ≤ 2
recover_all-budget_example = recover_all-budget limits tries 18 tries-IsTimed (omega arith)

recover_all-IsSpaced_example : IsSpaced 3 (recover_all limits tries fresh).moves
recover_all-IsSpaced_example = recover_all-IsSpaced limits tries tries-IsTimed (omega arith)
