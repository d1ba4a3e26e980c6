-- ===== src/Control/Connect/Ends.antt =====
-- From the request to the end of the walk: `startConnect` and `runFallback` of
-- core/control/connect.go.
use tenebra.Prelude.{suc, Bool, none, some, List, length, Text, ◌≡◌, inl, inr, arith}
use tenebra.Profile.{Profile}
use tenebra.Protection.Guard.{Backend}
use tenebra.Fallback.LastGood.{LastGood}
use tenebra.Fallback.Machine.{Attempt}
use tenebra.Control.State.{Env, Plan}
use tenebra.Control.Walk.{Ended, run_fallback}
use tenebra.Control.Walk.Ends.{Leftover, run_fallback-Leftover}
use tenebra.Control.Connect.{
  Daemon, Surroundings, Started, start_connect, effective_node, kept_candidates,
}
use tenebra.Control.Connect.Launched.{IsLaunched, Outcome, start_connect-Outcome}

module _ {S H : Type 0} ⦃lg : LastGood S⦄ (b : Backend H) (env : Surroundings) where
  of_launch :
      (p : Profile) (explicit avoid : Text) (d : Daemon S H) (r : Started S H)
      → r.refusal ≡ none
      → Outcome b env p explicit avoid d r
      → (cands : List Attempt) × IsLaunched p cands d r.daemon
  of_launch p explicit avoid d r e (inl (u, refused)) = absurd (refused e)
  of_launch p explicit avoid d r e (inr (cands, has, a)) =
      (kept_candidates (effective_node d.multihop explicit) avoid cands, rw e at a)

  -- A walk that `startConnect` launches ends, whatever happens around it, with as many turns as it
  -- has candidates and one more, and leaves what its end says.
  pub start_connect_ends :
      (p : Profile) (explicit : Text) (auto : Bool) (avoid : Text) (d : Daemon S H) (around : Env)
      (plan : Plan)
      → (start_connect b env p explicit auto avoid d).refusal ≡ none
      → let w = (start_connect b env p explicit auto avoid d).daemon.walk in
        (e : Ended S H) × (run_fallback b around plan (suc (length w.machine.order)) w ≡ some e)
        × Leftover b around plan w e.end e.walk
  start_connect_ends p explicit auto avoid d around plan ok =
      let r = start_connect b env p explicit auto avoid d in
      let (cands, l) =
        of_launch p explicit avoid d r ok (start_connect-Outcome b env p explicit auto avoid d) in
      run_fallback-Leftover b around plan (suc (length r.daemon.walk.machine.order)) r.daemon.walk
        l.running (omega arith) (omega (arith, l.cursor))
