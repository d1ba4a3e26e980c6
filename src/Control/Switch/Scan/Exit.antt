-- ===== src/Control/Switch/Scan/Exit.antt =====
-- What the scan of core/control/hotswitch.go finds.
use tenebra.Prelude.{
  guarded, neither, not-false, In-take, In-map, ℕ, true, false, not, ◌||◌, if-ind, Option, none,
  some, some_inj, List, [], ◌∷◌, length, In, inl, inr, Text, text_eq, lookup, ◌≡◌, refl, sym, ap,
  ◌∙◌, ◌==◌,
}
use tenebra.Prelude.Sort.Elements.{In-sort}
use tenebra.Profile.{Server, Profile}
use tenebra.Singbox.Validate.{is_empty}
use tenebra.Nodecheck.{NodeResult, usable, best}
use tenebra.Nodecheck.Choice.{best-IsBest}
use tenebra.Control.Tags.{tag_for}
use tenebra.Control.Switch.{LiveConfig, has_member, Line}
use tenebra.Control.Switch.Scan.{
  Candidate, is_held, eligible, good_of, good_first, capped, Survey, scan_candidates, measure,
  measure_candidates, other_good, scan_in, scan_for_exit, node_of,
}

-- An exit worth measuring: a server that is not the degraded one, that has not run out of probes
-- lately, and whose tag is in the selector.
pub record IsEligible (c : LiveConfig) (degraded : Text) (now retry : ℕ)
    (degraded_at : List (Text × ℕ)) (servers : List Server) (x : Candidate) : Type 0 where
  pub server : Server
  pub listed : In server servers
  pub id : server.id ≡ x.node_id
  pub other : text_eq x.node_id degraded ≡ false
  pub rested : is_held now retry (lookup x.node_id degraded_at) ≡ false
  pub tag : x.tag ≡ tag_for c.tag_of x.node_id
  pub member : has_member c x.tag ≡ true

module _ (c : LiveConfig) (degraded : Text) (now retry : ℕ) (degraded_at : List (Text × ℕ)) where
  later :
      (s : Server) (ss : List Server) (x : Candidate)
      → IsEligible c degraded now retry degraded_at ss x
      → IsEligible c degraded now retry degraded_at (s ∷ ss) x
  later s ss x h = record {
    server = h.server;
    listed = inr h.listed;
    id = h.id;
    other = h.other;
    rested = h.rested;
    tag = h.tag;
    member = h.member;
  }

  eligible-IsEligible :
      (ss : List Server) (x : Candidate)
      → In x (eligible c degraded now retry degraded_at ss)
      → IsEligible c degraded now retry degraded_at ss x
  unfolding eligible
  eligible-IsEligible [] x = λ i. absurd i
  eligible-IsEligible (s ∷ ss) x =
      let P =
        λ (l : List Candidate). In x l → IsEligible c degraded now retry degraded_at (s ∷ ss) x in
      let rest = λ (i : In x (eligible c degraded now retry degraded_at ss)).
        later s ss x (eligible-IsEligible ss x i) in
      let tag = tag_for c.tag_of s.id in
      if-ind P (text_eq s.id degraded) _ _ (λ e. rest)
        (λ e1.
          if-ind P (is_held now retry (lookup s.id degraded_at)) _ _ (λ e. rest)
            (λ e2.
              if-ind P (is_empty tag || not (has_member c tag)) _ _ (λ e. rest)
                (λ e3 i. elim i [
                  | inl e ↦ rw e (record {
                    server = s;
                    listed = inl refl;
                    id = refl;
                    other = e1;
                    rested = e2;
                    tag = refl;
                    member =
                        not-false (has_member c tag)
                          (neither (is_empty tag) (not (has_member c tag)) e3).1;
                  })
                  | inr j ↦ rest j
                ])))

In-capped : (n : ℕ) (x : Candidate) (xs : List Candidate) → In x (capped n xs) → In x xs
unfolding capped
In-capped n x xs = if-ind (λ l. In x l → In x xs) _ _ _ (λ e i. In-take n x xs i) (λ e i. i)

In-good_first :
    (g d : Text) (x : Candidate) (xs : List Candidate) → In x (good_first g d xs) → In x xs
unfolding good_first
In-good_first g d x xs =
    if-ind (λ l. In x l → In x xs) _ _ _
      (λ e. In-sort (λ (a b : Candidate). text_eq a.node_id g) x xs) (λ e i. i)

scan_candidates-IsEligible :
    (v : Survey) (now : ℕ) (c : LiveConfig) (p : Profile) (degraded : Text) (w : Line)
    (x : Candidate)
    → In x (scan_candidates v now c p degraded w)
    → IsEligible c degraded now v.retry_after w.recovery.degraded_at p.servers x
unfolding scan_candidates
scan_candidates-IsEligible v now c p degraded w x i =
    eligible-IsEligible c degraded now v.retry_after w.recovery.degraded_at p.servers x
      (In-good_first (good_of w.last_good p.id) degraded x _ (In-capped v.limit x _ i))

-- What a scan found: a server of the stored profile that was worth measuring, and that is usable by
-- its measurement.
pub record IsExit (v : Survey) (now : ℕ) (degraded : Text) (w : Line) (target : Text) : Type 0 where
  pub config : LiveConfig
  pub live : w.live ≡ some config
  pub profile : Profile
  pub stored : v.stored ≡ some profile
  pub candidate : Candidate
  pub named : candidate.node_id ≡ target
  pub worth :
      IsEligible config degraded now v.retry_after w.recovery.degraded_at profile.servers candidate
  pub works : usable (measure v.via v.targets candidate) ≡ true

best_works :
    (v : Survey) (g : Text) (cands : List Candidate) (r : NodeResult)
    → best (measure_candidates v.via cands v.targets) g ≡ some r
    → (x : Candidate) × In x cands
      × (r ≡ measure v.via v.targets x)
      × (usable (measure v.via v.targets x) ≡ true)
unfolding measure_candidates
best_works v g cands r e =
    let b = best-IsBest (measure_candidates v.via cands v.targets) g r e in
    let (x, i, q) = In-map (measure v.via v.targets) r cands b.measured in (x, i, q, rw⁻¹ q b.works)

node_of-some :
    (o : Option NodeResult) (id : Text)
    → node_of o ≡ some id
    → (r : NodeResult) × (o ≡ some r) × (r.node_id ≡ id)
unfolding node_of
node_of-some none id e = cc
node_of-some (some r) id e = (r, refl, some_inj e)

scan_in-IsExit :
    (v : Survey) (now : ℕ) (p_id degraded : Text) (w : Line) (live : Option LiveConfig)
    (stored : Option Profile) (target : Text)
    → w.live ≡ live
    → v.stored ≡ stored
    → scan_in v now p_id degraded w live stored ≡ some target
    → IsExit v now degraded w target
unfolding scan_in measure
scan_in-IsExit v now p_id degraded w (some c) (some p) target l s e =
    let cands = scan_candidates v now c p degraded w in
    let g = guarded (not (text_eq c.profile_id p_id) || (length v.targets == 0)) _ target e in
    let (r, b, q) = node_of-some _ target g.1 in
    let (x, i, m, u) = best_works v (other_good degraded (good_of w.last_good p_id)) cands r b in
    record {
      config = c;
      live = l;
      profile = p;
      stored = s;
      candidate = x;
      named = ap (λ (n : NodeResult). n.node_id) (sym m) ∙ q;
      worth = scan_candidates-IsEligible v now c p degraded w x i;
      works = u;
    }
scan_in-IsExit v now p_id degraded w none stored target l s e = cc
scan_in-IsExit v now p_id degraded w (some c) none target l s e = cc

-- What a scan returns is a server of the stored profile that is not the degraded one, that has not
-- run out of probes since the cutoff, whose tag in the running configuration is in the selector,
-- and through which more than half of the targets that were probed were reached.
pub scan_for_exit-IsExit :
    (v : Survey) (now : ℕ) (p_id degraded : Text) (w : Line) (target : Text)
    → scan_for_exit v now p_id degraded w ≡ some target
    → IsExit v now degraded w target
unfolding scan_for_exit
scan_for_exit-IsExit v now p_id degraded w target e =
    scan_in-IsExit v now p_id degraded w w.live v.stored target refl refl e
