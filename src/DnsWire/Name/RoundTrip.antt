-- ===== src/DnsWire/Name/RoundTrip.antt =====
-- `EncodeName` and `ReadName` of core/dnswire/dnswire.go, label by label.
use mathlib.Core.List.{append_assoc, append-nil}
use tenebra.Prelude.{
  ℕ, zero, suc, ◌+◌, ◌-◌, ◌/◌, ◌%◌, ◌<◌, ◌≡◌, ◌≢◌, refl, sym, ap, ap₂, ◌∙◌, inl, inr, true, false,
  ◌||◌, ◌&&◌, Bool-cases, none, some, List, [], ◌∷◌, ◌++◌, Text, to_lower, lower_byte, length,
  length-append, get_elem?, take, drop, ltb, leb, ◌==◌, arith,
}
use tenebra.DnsWire.Result.{ok, bind-eq-ok, byte_at, slice}
use tenebra.DnsWire.Encode.{trim_dot, canonical_host, split_dots, onto_first, encode_labels}
use tenebra.DnsWire.Name.{Cursor, done, more, label_round, kind_round, name_round, read_loop}

get-append : (pre : Text) (b : ℕ) (rest : Text) → get_elem? (pre ++ b ∷ rest) (length pre) ≡ some b
get-append [] b rest = refl
get-append (x ∷ pre) b rest = get-append pre b rest

drop-append : (pre rest : Text) → drop (length pre) (pre ++ rest) ≡ rest
drop-append [] rest = refl
drop-append (x ∷ pre) rest = drop-append pre rest

take-append : (l rest : Text) → take (length l) (l ++ rest) ≡ l
take-append [] rest = refl
take-append (x ∷ l) rest = ap (◌∷◌ x) (take-append l rest)

-- The labels with a dot behind each.
abbrev pub dotted : List Text → Text
dotted [] = []
dotted (l ∷ ls) = l ++ b'.' ∷ dotted ls

-- `host` with a dot behind it is its labels, each with a dot behind it.
dotted-onto_first : (c : ℕ) (ls : List Text) → ls ≢ [] → dotted (onto_first c ls) ≡ c ∷ dotted ls
dotted-onto_first c [] h = absurd (h refl)
dotted-onto_first c (l ∷ ls) h = refl

split_dots-ne : (h : Text) → split_dots h ≢ []
unfolding split_dots
split_dots-ne [] = λ e. cc
split_dots-ne (c ∷ h) = elim (Bool-cases (c == b'.')) [
  | inl dot ↦ rw dot (λ e. cc)
  | inr other ↦ rw other (onto_first-ne (split_dots h))
]
  where
    onto_first-ne : (ls : List Text) → onto_first c ls ≢ []
    onto_first-ne [] e = cc
    onto_first-ne (l ∷ ls) e = cc

dotted-split_dots : (h : Text) → dotted (split_dots h) ≡ h ++ b'.' ∷ []
unfolding split_dots
dotted-split_dots [] = refl
dotted-split_dots (c ∷ h) = elim (Bool-cases (c == b'.')) [
  | inl dot ↦ rw dot (ground (arith, dotted-split_dots h))
  | inr other ↦
      rw other
        (dotted-onto_first c (split_dots h) (split_dots-ne h) ∙ ap (◌∷◌ c) (dotted-split_dots h))
]

trim_dot-append : (h : Text) → trim_dot (h ++ b'.' ∷ []) ≡ h
unfolding trim_dot
trim_dot-append [] = refl
trim_dot-append (c ∷ []) = refl
trim_dot-append (c ∷ d ∷ h) = ap (◌∷◌ c) (trim_dot-append (d ∷ h))

to_lower-dot : (h : Text) → to_lower (h ++ b'.' ∷ []) ≡ to_lower h ++ b'.' ∷ []
unfolding to_lower
to_lower-dot [] = refl
to_lower-dot (c ∷ h) = ap (◌∷◌ (lower_byte c)) (to_lower-dot h)

-- A dot at the end goes before or after folding the case.
trim_dot-to_lower : (h : Text) → trim_dot (to_lower h) ≡ to_lower (trim_dot h)
unfolding trim_dot to_lower
trim_dot-to_lower [] = refl
trim_dot-to_lower (c ∷ []) = ground arith
trim_dot-to_lower (c ∷ d ∷ h) = ap (◌∷◌ (lower_byte c)) (trim_dot-to_lower (d ∷ h))

pub canonical_host-dotted :
    (host : Text) → canonical_host (dotted (split_dots (trim_dot host))) ≡ canonical_host host
unfolding canonical_host
canonical_host-dotted host =
    ap canonical_host (dotted-split_dots (trim_dot host))
    ∙ ap trim_dot (to_lower-dot (trim_dot host))
    ∙ trim_dot-append (to_lower (trim_dot host))
    ∙ sym (trim_dot-to_lower host)

byte_at-append : (pre : Text) (b : ℕ) (rest : Text) → byte_at (pre ++ b ∷ rest) (length pre) ≡ ok b
unfolding byte_at
byte_at-append pre b rest = rw (get-append pre b rest)

slice-append :
    (pre l rest : Text) (i j : ℕ)
    → i ≡ length pre
    → j ≡ length pre + length l
    → slice (pre ++ (l ++ rest)) i j ≡ ok l
unfolding slice
slice-append pre l rest i j e f =
    let inside : (leb i j && leb j (length (pre ++ (l ++ rest)))) ≡ true =
      ground (arith, length-append pre (l ++ rest), length-append l rest) in
    let count : j - i ≡ length l = omega arith in
    rw inside (rw count (rw e (rw (drop-append pre (l ++ rest)) (rw (take-append l rest)))))

slice_label :
    (pre : Text) (b : ℕ) (l rest : Text)
    → slice (pre ++ b ∷ (l ++ rest)) (length pre + 1) (length pre + 1 + length l) ≡ ok l
slice_label pre b l rest =
    ap (λ m. slice m (length pre + 1) (length pre + 1 + length l))
      (sym (append_assoc pre (b ∷ []) (l ++ rest)))
    ∙ slice-append (pre ++ b ∷ []) l rest _ _ (omega (arith, length-append pre (b ∷ [])))
        (omega (arith, length-append pre (b ∷ [])))

abbrev pub at_label : Text → Text → Cursor
at_label pre sb = record { off = length pre; next = none; pointers = 0; sb = sb }

-- One round over a label that stands at the cursor.
label_step :
    (pre l rest sb : Text)
    → 0 < length l
    → length l < 64
    → name_round (pre ++ length l ∷ (l ++ rest)) (at_label pre sb)
      ≡ ok (
          more (record {
            off = length pre + 1 + length l;
            next = none;
            pointers = 0;
            sb = sb ++ (l ++ b'.' ∷ []);
          }))
unfolding name_round kind_round label_round
label_step pre l rest sb h k =
    let size = length-append pre (length l ∷ (l ++ rest)) in
    let more_size = length-append l rest in
    let inside : leb (length (pre ++ length l ∷ (l ++ rest))) (length pre) ≡ false =
      ground (arith, size) in
    let kind : (length l / 64 % 4 == 0) ≡ true = ground arith in
    let filled : (length l == 0) ≡ false = ground arith in
    let fits : ltb (length (pre ++ length l ∷ (l ++ rest))) (length pre + 1 + length l) ≡ false =
      ground (arith, size, more_size) in
    rw inside (
      rw (byte_at-append pre (length l) (l ++ rest))
        (rw kind (rw filled (rw fits (rw (slice_label pre (length l) l rest))))))

-- The last round, at the root label.
root_step :
    (pre rest sb : Text)
    → name_round (pre ++ 0 ∷ rest) (at_label pre sb)
      ≡ ok (done (canonical_host sb) (length pre + 1))
unfolding name_round kind_round label_round
root_step pre rest sb =
    let inside : leb (length (pre ++ 0 ∷ rest)) (length pre) ≡ false =
      ground (arith, length-append pre (0 ∷ rest)) in
    rw inside (rw (byte_at-append pre 0 rest))

encode_labels-cons :
    (l : Text) (ls : List Text) (enc : Text)
    → encode_labels (l ∷ ls) ≡ ok enc
    → (out : Text) × (encode_labels ls ≡ ok out)
      × (0 < length l)
      × (length l < 64)
      × (enc ≡ length l ∷ (l ++ out))
unfolding encode_labels
encode_labels-cons l ls enc e = elim (Bool-cases (length l == 0 || ltb 63 (length l))) [
  | inl bad ↦ absurd (cc (rw bad at e))
  | inr good ↦
      let (out, rest, whole) = bind-eq-ok (encode_labels ls) _ (rw good at e) in
      let size : length l % 256 ≡ length l = ground arith in
      (out, rest, ground arith, ground arith, of_ok out size whole)
]
  where
    of_ok :
        (out : Text)
        → length l % 256 ≡ length l
        → ok ((length l % 256) ∷ (l ++ out)) ≡ ok enc
        → enc ≡ length l ∷ (l ++ out)
    of_ok out size whole = ground arith

-- What is left of the loop after one label, as the loop on the rest of the name.
after_label :
    (pre l tail sb : Text) (fuel : ℕ)
    → 0 < length l
    → length l < 64
    → read_loop (suc fuel) (pre ++ length l ∷ (l ++ tail)) (at_label pre sb)
      ≡ read_loop fuel
          ((pre ++ length l ∷ l) ++ tail)
          (at_label (pre ++ length l ∷ l) (sb ++ (l ++ b'.' ∷ [])))
unfolding read_loop
after_label pre l tail sb fuel h k =
    let off : length pre + 1 + length l ≡ length (pre ++ length l ∷ l) =
      omega (arith, length-append pre (length l ∷ l)) in
    rw (label_step pre l tail sb h k, read_loop)
      (rw (append_assoc pre (length l ∷ l) tail) (
        ap
          (λ o.
            read_loop fuel (pre ++ length l ∷ (l ++ tail))
              (record { off = o; next = none; pointers = 0; sb = sb ++ (l ++ b'.' ∷ []) }))
          off))

-- The loop over the labels of an encoded name, with anything before and behind it.
pub read_labels :
    (ls : List Text) (enc pre rest sb : Text) (fuel : ℕ)
    → encode_labels ls ≡ ok enc
    → length enc < fuel
    → read_loop fuel (pre ++ (enc ++ 0 ∷ rest)) (at_label pre sb)
      ≡ ok (canonical_host (sb ++ dotted ls), length pre + length enc + 1)
read_labels [] enc pre rest sb zero e h = absurd (omega arith)
read_labels (l ∷ ls) enc pre rest sb zero e h = absurd (omega arith)
read_labels [] enc pre rest sb (suc fuel) e h =
    let empty : [] ≡ enc = unfold encode_labels in ground arith in
    rw (← empty) (
      unfold read_loop in
      rw (root_step pre rest sb, read_loop)
        (rw (append-nil sb) (ap (λ n. ok (canonical_host sb, n)) (omega arith))))
read_labels (l ∷ ls) enc pre rest sb (suc fuel) e h =
    let (out, part, low, high, whole) = encode_labels-cons l ls enc e in
    let size = length-append l out in
    let pre_size = length-append pre (length l ∷ l) in
    let short : length out < fuel = omega (arith, ap length whole) in
    let last : length (pre ++ length l ∷ l) + length out + 1 ≡ length pre + length enc + 1 =
      omega (arith, ap length whole) in
    ap (λ x. read_loop (suc fuel) (pre ++ (x ++ 0 ∷ rest)) (at_label pre sb)) whole
    ∙ ap (λ x. read_loop (suc fuel) (pre ++ length l ∷ x) (at_label pre sb))
        (append_assoc l out (0 ∷ rest))
    ∙ after_label pre l (out ++ 0 ∷ rest) sb fuel low high
    ∙ read_labels ls out (pre ++ length l ∷ l) rest (sb ++ (l ++ b'.' ∷ [])) fuel part short
    ∙ ap₂ (λ s n. ok (canonical_host s, n))
        (append_assoc sb (l ++ b'.' ∷ []) (dotted ls)
          ∙ ap (◌++◌ sb) (append_assoc l (b'.' ∷ []) (dotted ls)))
        last
