-- ===== src/Singbox/Tags/Free.antt =====
-- A tag that `uniq` of core/singbox/builder.go hands out was free.
use tenebra.Prelude.{
  ℕ, zero, suc, ◌+◌, ◌≤◌, ◌<◌, false, Bool-cases, [], ◌∷◌, ◌++◌, map, Text, if-ind, text_eq,
  text_eq_iff, text_eq_refl, lookup, insert, lookup-insert, keep, drop, length, length-keep, ltb,
  ◌==◌, ◌≡◌, ◌≢◌, refl, inl, inr, arith, if◌then◌else◌,
}
use tenebra.Prelude.Decimal.{decimal, value_of, value_of-decimal}
use tenebra.Singbox.Validate.{is_empty}
use tenebra.Singbox.Tags.{
  or_node, tag_byte, trim_space, Seen, count_of, free_tag, count_up, candidate, Named, named,
  suffix_loop, uniq, sanitize_tag, or_zero,
}

pub count_of-insert :
    (k j : Text) (n : ℕ) (m : Seen)
    → count_of j (insert k n m) ≡ (if text_eq k j then n else count_of j m)
unfolding count_of or_zero
count_of-insert k j n m = elim (Bool-cases (text_eq k j)) [
  | inl t ↦ rw (lookup-insert k j n m, t)
  | inr f ↦ rw (lookup-insert k j n m, f)
]

-- The number that a candidate for a base ends in.
rank : Text → Text → ℕ
rank base t = value_of 0 (drop (suc (length base)) t)

drop-candidate : (base t : Text) (c : ℕ) → drop (suc (length base)) (base ++ (c ∷ t)) ≡ t
drop-candidate [] t c = refl
drop-candidate (b ∷ base) t c = drop-candidate base t c

rank-candidate : (base : Text) (n : ℕ) → rank base (candidate base n) ≡ n
unfolding rank candidate
rank-candidate base n = rw (drop-candidate base (decimal n) b'-') (value_of-decimal n)

-- How many tags of the map may still be met.
later : Text → Seen → ℕ → ℕ
later base seen c = length (keep (λ (e : Text × ℕ). ltb c (rank base e.0)) seen)

later_mono : (base : Text) (seen : Seen) (c : ℕ) → later base seen (suc c) ≤ later base seen c
unfolding later
later_mono base [] c = omega arith
later_mono base (e ∷ seen) c = ground (arith, later_mono base seen c)

later-step :
    (base t : Text) (seen : Seen) (c : ℕ)
    → count_of t seen ≢ 0
    → rank base t ≡ suc c
    → later base seen (suc c) < later base seen c
unfolding later count_of or_zero lookup
later-step base t [] c h r = absurd (h refl)
later-step base t ((k, n) ∷ seen) c h r =
    ground (arith, text_eq_iff k t, later-step base t seen c, later_mono base seen c)

later-insert :
    (base t : Text) (n : ℕ) (seen : Seen) (c : ℕ)
    → count_of t seen ≢ 0
    → later base (insert t n seen) c ≡ later base seen c
unfolding later count_of or_zero lookup insert
later-insert base t n [] c h = absurd (h refl)
later-insert base t n ((k, m) ∷ seen) c h =
    ground (arith, text_eq_iff k t, later-insert base t n seen c)

pub count_of-free_tag : (u t : Text) (m : Seen) → u ≢ t → count_of t (free_tag u m) ≡ count_of t m
unfolding count_of or_zero free_tag lookup
count_of-free_tag u t [] h = refl
count_of-free_tag u t ((k, n) ∷ m) h =
    ground (arith, text_eq_iff k u, text_eq_iff k t, count_of-free_tag u t m)

-- The tag was not in the map, it is now, and no other has left it.
pub record Fresh (seen : Seen) (r : Named) : Type 0 where
  pub free : count_of r.tag seen ≡ 0
  pub taken : count_of r.tag r.seen ≡ 1
  pub kept : (t : Text) → count_of t seen ≢ 0 → count_of t r.seen ≢ 0

named-Fresh : (t : Text) (seen : Seen) → count_of t seen ≡ 0 → Fresh seen (named t seen)
named-Fresh t seen h = record {
  free = h;
  taken = rw (count_of-insert t t 1 seen, text_eq_refl t);
  kept = λ u n. elim (Bool-cases (text_eq t u)) [
    | inl e ↦ rw (count_of-insert t u 1 seen, e) (λ z. absurd (omega (arith, z)))
    | inr f ↦ rw (count_of-insert t u 1 seen, f) n
  ];
}

count_up-Fresh :
    (base : Text) (seen : Seen) (r : Named)
    → count_of base seen ≢ 0
    → Fresh (count_up base seen) r
    → Fresh seen r
unfolding count_up
count_up-Fresh base seen r h f = record {
  free =
      let e = count_of-insert base r.tag (count_of base seen + 1) seen in
      let free = f.free in ground arith;
  taken = f.taken;
  kept = λ u n.
      f.kept u
        (λ z. let e = count_of-insert base u (count_of base seen + 1) seen in n (ground arith));
}

count_up_self :
    (base : Text) (seen : Seen) → count_of base (count_up base seen) ≡ suc (count_of base seen)
unfolding count_up
count_up_self base seen =
    rw (count_of-insert base base (count_of base seen + 1) seen, text_eq_refl base) (omega arith)

later-count_up :
    (base : Text) (seen : Seen) (c : ℕ)
    → count_of base seen ≢ 0
    → later base (count_up base seen) c ≡ later base seen c
unfolding count_up
later-count_up base seen c h = later-insert base base (count_of base seen + 1) seen c h

-- A candidate that the map holds, behind the counter, uses up one of those that may be met.
step_later :
    (base : Text) (seen : Seen)
    → count_of base seen ≢ 0
    → count_of (candidate base (suc (count_of base seen))) (count_up base seen) ≢ 0
    → later base (count_up base seen) (suc (count_of base seen))
      < later base seen (count_of base seen)
step_later base seen h m =
    let r = rank-candidate base (suc (count_of base seen)) in
    let step =
      later-step base (candidate base (suc (count_of base seen))) (count_up base seen)
        (count_of base seen) m r in
    let same = later-count_up base seen (count_of base seen) h in omega arith

suffix_loop-Fresh :
    (f : ℕ) (base : Text) (seen : Seen)
    → count_of base seen ≢ 0
    → later base seen (count_of base seen) ≤ f
    → Fresh seen (suffix_loop f base seen)
unfolding suffix_loop
suffix_loop-Fresh zero base seen h le =
    let cand = candidate base (suc (count_of base seen)) in
    count_up-Fresh base seen _ h (
      rw (count_up_self base seen) (elim (Bool-cases (count_of cand (count_up base seen) == 0)) [
        | inl z ↦ named-Fresh cand (count_up base seen) (ground arith)
        | inr nz ↦ absurd (omega (arith, step_later base seen h (ground arith)))
      ]))
suffix_loop-Fresh (suc f) base seen h le =
    let cand = candidate base (suc (count_of base seen)) in
    count_up-Fresh base seen _ h (
      rw (count_up_self base seen) (elim (Bool-cases (count_of cand (count_up base seen) == 0)) [
        | inl z ↦ rw z (named-Fresh cand (count_up base seen) (ground arith))
        | inr nz ↦
            let step = step_later base seen h (ground arith) in
            rw nz (
              suffix_loop-Fresh f base (count_up base seen)
                (λ z. absurd (omega (arith, count_up_self base seen)))
                (rw (count_up_self base seen) (omega arith)))
      ]))

-- The tag that `uniq` hands out was free, and it is taken behind it, with all that were: the loop
-- over the suffixes ends.
pub uniq-Fresh : (name : Text) (seen : Seen) → Fresh seen (uniq name seen)
unfolding uniq
uniq-Fresh name seen =
    let base = sanitize_tag name in
    elim (Bool-cases (count_of base seen == 0)) [
      | inl z ↦ rw z (named-Fresh base seen (ground arith))
      | inr nz ↦
          let short =
            length-keep (λ (e : Text × ℕ). ltb (count_of base seen) (rank base e.0)) seen in
          rw nz (suffix_loop-Fresh (length seen) base seen (ground arith) (unfold later in short))
    ]

candidate-filled : (base : Text) (n : ℕ) → is_empty (candidate base n) ≡ false
unfolding candidate text_eq
candidate-filled [] n = refl
candidate-filled (b ∷ base) n = refl

or_node-filled : (t : Text) → is_empty (or_node t) ≡ false
unfolding or_node text_eq
or_node-filled [] = refl
or_node-filled (c ∷ t) = refl

sanitize_tag-filled : (name : Text) → is_empty (sanitize_tag name) ≡ false
unfolding sanitize_tag
sanitize_tag-filled name = or_node-filled (trim_space (map tag_byte (trim_space name)))

suffix_loop-filled :
    (f : ℕ) (base : Text) (seen : Seen) → is_empty (suffix_loop f base seen).tag ≡ false
unfolding suffix_loop
suffix_loop-filled zero base seen = candidate-filled base (count_of base (count_up base seen))
suffix_loop-filled (suc f) base seen =
    let seen' = count_up base seen in
    let cand = candidate base (count_of base seen') in
    if-ind (λ (r : Named). is_empty r.tag ≡ false) (count_of cand seen' == 0) (named cand seen')
      (suffix_loop f base seen') (λ z. candidate-filled base (count_of base seen'))
      (λ z. suffix_loop-filled f base seen')

-- No tag is empty.
pub uniq-filled : (name : Text) (seen : Seen) → is_empty (uniq name seen).tag ≡ false
unfolding uniq
uniq-filled name seen =
    let base = sanitize_tag name in
    if-ind (λ (r : Named). is_empty r.tag ≡ false) (count_of base seen == 0) (named base seen)
      (suffix_loop (length seen) base seen) (λ z. sanitize_tag-filled name)
      (λ z. suffix_loop-filled (length seen) base seen)
