-- ===== src/Routing/Presets/Services.antt =====
-- The split of the preset services between the bypass and the tunnel: `zapretDirectSuffixes` and
-- `proxySuffixesWithPresets` of core/routing/presets.go.
use mathlib.Core.List.{append_assoc}
use tenebra.Prelude.{
  bool_ext, Bool, true, false, not, ◌&&◌, ◌||◌, Bool-cases, List, [], ◌∷◌, ◌++◌, Text, codes,
  text_eq, text_eq_iff, text_eq_refl, has_suffix, all, all-In, any-In, any-find, keep, keep-In,
  In-keep, In, In-append_left, In-append_right, In-append_cases, ◌≡◌, ◌≢◌, ◌⊎◌, ◌↔◌, inl, inr, refl,
  sym, ap, ◌∙◌, arith,
}
use tenebra.Routing.Suffixes.{clean, normalize_suffixes}
use tenebra.Routing.Suffixes.Normal.{normalize_suffixes_lem}
use tenebra.Routing.Suffixes.Clean.{clean_idem}
use tenebra.Routing.Options.{Options, direct_pin_allowed, rules_active, proxy_rule_suffixes}
use tenebra.Routing.Presets.{
  blocked_service_suffixes, covers, covered_by_zapret, coverage, unblock_active,
  zapret_direct_suffixes, tunnelled_services, proxy_suffixes_with_presets,
}

has_suffix-eq : (s p : Text) → has_suffix s p ≡ true → (q : Text) × (s ≡ q ++ p)
unfolding has_suffix
has_suffix-eq [] p h = ([], (text_eq_iff [] p).0 h)
has_suffix-eq (c ∷ s) p h = elim (Bool-cases (text_eq (c ∷ s) p)) [
  | inl e ↦ ([], (text_eq_iff (c ∷ s) p).0 e)
  | inr f ↦ let (q, e) = has_suffix-eq s p (rw f at h) in (c ∷ q, ap (◌∷◌ c) e)
]

has_suffix-append : (q p : Text) → has_suffix (q ++ p) p ≡ true
unfolding has_suffix
has_suffix-append [] [] = text_eq_refl []
has_suffix-append [] (c ∷ p) = ground (arith, text_eq_refl (c ∷ p))
has_suffix-append (c ∷ q) p = ground (arith, has_suffix-append q p)

covers_cases :
    (s c : Text) → covers s c ≡ true → (s ≡ c) ⊎ ((q : Text) × (s ≡ q ++ (codes "." ++ c)))
unfolding covers
covers_cases s c h = elim (Bool-cases (text_eq s c)) [
  | inl e ↦ inl ((text_eq_iff s c).0 e)
  | inr f ↦ inr (has_suffix-eq s (codes "." ++ c) (rw f at h))
]

covers_below : (q c : Text) → covers (q ++ (codes "." ++ c)) c ≡ true
unfolding covers
covers_below q c = ground (arith, has_suffix-append q (codes "." ++ c))

covers_trans : (s c e : Text) → covers s c ≡ true → covers c e ≡ true → covers s e ≡ true
covers_trans s c e h k = elim (covers_cases s c h) [
  | inl p ↦ rw p k
  | inr (q, p) ↦ elim (covers_cases c e k) [
    | inl p' ↦ rw p' at h
    | inr (r, p') ↦
        rw
          (
            p,
            p',
            ← append_assoc q (codes ".") (r ++ (codes "." ++ e)),
            ← append_assoc (q ++ codes ".") r (codes "." ++ e),
          )
          (covers_below ((q ++ codes ".") ++ r) e)
  ]
]

covers_refl : (s : Text) → covers s s ≡ true
unfolding covers
covers_refl s = ground (arith, text_eq_refl s)

-- The preset is written in normal form.
is_clean : Text → Bool
is_clean s = text_eq (clean s) s && not (text_eq s (codes ""))

all_clean : all is_clean blocked_service_suffixes ≡ true
unfolding is_clean clean text_eq
all_clean = refl

named : (s : Text) → is_clean s ≡ true → (clean s ≡ s) × (s ≢ codes "")
unfolding is_clean
named s h = (
  (text_eq_iff (clean s) s).0 (ground arith),
  λ e. absurd (ground (arith, text_eq_iff s (codes ""))),
)

clean_of : (s : Text) → In s blocked_service_suffixes → (clean s ≡ s) × (s ≢ codes "")
clean_of s i = named s (all-In is_clean s blocked_service_suffixes all_clean i)

-- Normalizing a list of clean entries keeps its elements.
normalize-In :
    (ts : List Text) (s : Text)
    → ((t : Text) → In t ts → (clean t ≡ t) × (t ≢ codes ""))
    → In s (normalize_suffixes ts) ↔ In s ts
normalize-In ts s tidy = (
  λ i. let r = ((normalize_suffixes_lem ts).0 s).0 i in rw (r.1.2, (tidy r.1.0 r.1.1).0) r.1.1,
  λ i. ((normalize_suffixes_lem ts).0 s).1 ((tidy s i).1, (s, i, sym (tidy s i).0)),
)

both_on : (a b c : Bool) → (not a || not b) ≡ false → c ≡ true → (a && b && c) ≡ true
both_on a b c h k = ground arith

on_all : (a b c : Bool) → (a && b && c) ≡ true → ((not a || not b) ≡ false) × (c ≡ true)
on_all a b c h = ground arith

from_negation : (b : Bool) → not b ≡ true → b ≡ false
from_negation b h = ground arith

to_negation : (b : Bool) → b ≡ false → not b ≡ true
to_negation b h = ground arith

-- Whether the running bypass takes a service off the tunnel.
abbrev pub bypassed : Options → Text → Bool
bypassed o s = o.zapret_active && direct_pin_allowed o && covered_by_zapret (coverage o) s

module _ (o : Options) where
  covered_service : Text → Bool
  covered_service s = covered_by_zapret (coverage o) s

  kept_service :
      (s : Text)
      → In s (normalize_suffixes (keep covered_service blocked_service_suffixes))
        ↔ In s (keep covered_service blocked_service_suffixes)
  kept_service s =
      normalize-In (keep covered_service blocked_service_suffixes) s
        (λ t i. clean_of t (In-keep covered_service t blocked_service_suffixes i).0)

  direct-In :
      (s : Text)
      → In s (zapret_direct_suffixes o) ↔ (In s blocked_service_suffixes × (bypassed o s ≡ true))
  unfolding zapret_direct_suffixes covered_service
  direct-In s = elim (Bool-cases (not o.zapret_active || not (direct_pin_allowed o))) [
    | inl off ↦ (
      λ i. absurd (rw off at i),
      λ r.
          absurd
            (cc (off, (on_all o.zapret_active (direct_pin_allowed o) (covered_service s) r.1).0)),
    )
    | inr on ↦ (
      λ i.
          let j =
            In-keep covered_service s blocked_service_suffixes ((kept_service s).0 (rw on at i)) in
          (j.0, both_on o.zapret_active (direct_pin_allowed o) (covered_service s) on j.1),
      λ r. rw on (
          (kept_service s).1 (
            keep-In covered_service s blocked_service_suffixes r.0
              (on_all o.zapret_active (direct_pin_allowed o) (covered_service s) r.1).1)),
    )
  ]

  covered_lift : (s c : Text) → covers s c ≡ true → bypassed o c ≡ true → bypassed o s ≡ true
  unfolding covered_by_zapret
  covered_lift s c h b =
      let (off, k) =
        on_all o.zapret_active (direct_pin_allowed o) (covered_by_zapret (coverage o) c) b in
      let (e, i, t) = any-find (covers c) (coverage o) k in
      both_on o.zapret_active (direct_pin_allowed o) _ off
        (any-In (covers s) e (coverage o) i (covers_trans s c e h t))

  covered-bypassed :
      (s : Text)
      → In s blocked_service_suffixes
      → covered_by_zapret (zapret_direct_suffixes o) s ≡ bypassed o s
  unfolding covered_by_zapret
  covered-bypassed s i =
      bool_ext _ _
        (λ h.
          let (c, j, t) = any-find (covers s) (zapret_direct_suffixes o) h in
          covered_lift s c t ((direct-In c).0 j).1)
        (λ b.
          any-In (covers s) s (zapret_direct_suffixes o) ((direct-In s).1 (i, b)) (covers_refl s))

tunnelled-In :
    (direct : List Text) (s : Text)
    → In s blocked_service_suffixes
    → In s (tunnelled_services direct) ↔ (covered_by_zapret direct s ≡ false)
unfolding tunnelled_services covered_by_zapret
tunnelled-In [] s i = (λ _. refl, λ _. i)
tunnelled-In (d ∷ ds) s i = (
  λ j.
      from_negation _
        (In-keep (λ t. not (covered_by_zapret (d ∷ ds) t)) s blocked_service_suffixes j).1,
  λ f.
      keep-In (λ t. not (covered_by_zapret (d ∷ ds) t)) s blocked_service_suffixes i
        (to_negation _ f),
)

tunnelled-service :
    (direct : List Text) (s : Text)
    → In s (tunnelled_services direct)
    → In s blocked_service_suffixes
unfolding tunnelled_services
tunnelled-service [] s i = i
tunnelled-service (d ∷ ds) s i =
    (In-keep (λ t. not (covered_by_zapret (d ∷ ds) t)) s blocked_service_suffixes i).0

-- What the user's rules pin is clean.
rule_clean :
    (o : Options) (s : Text) → In s (proxy_rule_suffixes o) → (clean s ≡ s) × (s ≢ codes "")
unfolding proxy_rule_suffixes
rule_clean o s i = elim (Bool-cases (not (rules_active o))) [
  | inl t ↦ absurd (rw t at i)
  | inr f ↦
      let (a, (r, j, e)) = ((normalize_suffixes_lem o.rules_proxy).0 s).0 (rw f at i) in
      (rw e (clean_idem r), a)
]

merged-In :
    (o : Options) (s : Text)
    → unblock_active o ≡ true
    → In s (proxy_suffixes_with_presets o)
      ↔ In s (proxy_rule_suffixes o ++ tunnelled_services (zapret_direct_suffixes o))
unfolding proxy_suffixes_with_presets
merged-In o s on = rw on (
    normalize-In _ s (λ t i. elim (In-append_cases t (proxy_rule_suffixes o) _ i) [
      | inl j ↦ rule_clean o t j
      | inr j ↦ clean_of t (tunnelled-service (zapret_direct_suffixes o) t j)
    ]))

-- While the services preset is active, each of its services is pinned direct exactly if the
-- running bypass covers it and direct pins are allowed, and pinned to the proxy exactly if not, or
-- if a rule of the user pins it there.
pub services_split :
    (o : Options) (s : Text)
    → unblock_active o ≡ true
    → In s blocked_service_suffixes
    → (In s (zapret_direct_suffixes o) ↔ (bypassed o s ≡ true))
      × (In s (proxy_suffixes_with_presets o)
          ↔ (In s (proxy_rule_suffixes o) ⊎ (bypassed o s ≡ false)))
services_split o s on i =
    let t = tunnelled-In (zapret_direct_suffixes o) s i in
    let m = merged-In o s on in
    let same = covered-bypassed o s i in
    (
      (λ j. ((direct-In o s).0 j).1, λ b. (direct-In o s).1 (i, b)),
      (
        λ j. elim (In-append_cases s (proxy_rule_suffixes o) _ (m.0 j)) [
          | inl u ↦ inl u
          | inr p ↦ inr (sym same ∙ t.0 p)
        ],
        λ r. m.1 (elim r [
          | inl u ↦ In-append_left s _ _ u
          | inr f ↦ In-append_right s (proxy_rule_suffixes o) _ (t.1 (same ∙ f))
        ]),
      ),
    )
