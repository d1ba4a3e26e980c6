-- ===== src/DnsWire/Name/Encoded.antt =====
-- `EncodeName` and `ReadName` of core/dnswire/dnswire.go, on a whole name.
use mathlib.Core.List.{append_assoc}
use tenebra.Prelude.{
  ◌+◌, ◌≤◌, ◌<◌, ◌≡◌, sym, ap, ap₂, ◌∙◌, inl, inr, Bool-cases, [], ◌∷◌, ◌++◌, Text, text_eq, length,
  length-append, ltb, arith,
}
use tenebra.DnsWire.Result.{ok, bind-eq-ok}
use tenebra.DnsWire.Encode.{
  trim_dot, canonical_host, split_dots, encode_labels, close_name, encode_name,
}
use tenebra.DnsWire.Name.{read_loop, name_fuel, start, read_name}
use tenebra.DnsWire.Name.RoundTrip.{read_labels, canonical_host-dotted}

close_name-ok :
    (out enc : Text) → close_name out ≡ ok enc → (enc ≡ out ++ 0 ∷ []) × (length enc ≤ 255)
unfolding close_name
close_name-ok out enc e = elim (Bool-cases (ltb 255 (length (out ++ 0 ∷ [])))) [
  | inl long ↦ absurd (cc (rw long at e))
  | inr fits ↦
      let same : out ++ 0 ∷ [] ≡ enc = ground (arith, rw fits at e) in
      (sym same, rw (← same) (ground arith))
]

-- An encoded name is the encoding of its labels and the root label.
encode_name-ok :
    (host enc : Text)
    → encode_name host ≡ ok enc
    → (out : Text) × (encode_labels (split_dots (trim_dot host)) ≡ ok out)
      × (enc ≡ out ++ 0 ∷ [])
      × (length enc ≤ 255)
unfolding encode_name
encode_name-ok host enc e = elim (Bool-cases (text_eq (trim_dot host) [])) [
  | inl empty ↦ absurd (cc (rw empty at e))
  | inr named ↦
      let (out, labels, closed) =
        bind-eq-ok (encode_labels (split_dots (trim_dot host))) _ (rw named at e) in
      let r = close_name-ok out enc closed in (out, labels, r.0, r.1)
]

-- Wherever an encoded host stands in a message, `ReadName` returns the host in canonical form,
-- and the offset behind the encoding, which is at most 255 bytes long.
pub read_name-encode_name :
    (host pre rest : Text) {enc : Text}
    → encode_name host ≡ ok enc
    → (read_name (pre ++ (enc ++ rest)) (length pre)
        ≡ ok (canonical_host host, length pre + length enc))
      × (length enc ≤ 255)
unfolding read_name
read_name-encode_name host pre rest {enc} e =
    let (out, labels, whole, short) = encode_name-ok host enc e in
    let msg = pre ++ (enc ++ rest) in
    let size = length-append pre (enc ++ rest) in
    let part = length-append enc rest in
    let tail = length-append out (0 ∷ []) in
    let enough : length out < name_fuel msg = omega (arith, size, part, ap length whole, tail) in
    (
      ap (λ x. read_loop (name_fuel msg) (pre ++ x) (start (length pre)))
            (ap (λ x. x ++ rest) whole ∙ append_assoc out (0 ∷ []) rest)
          ∙ read_labels (split_dots (trim_dot host)) out pre rest [] (name_fuel msg) labels enough
          ∙ ap₂ (λ s n. ok (s, n)) (canonical_host-dotted host)
              (omega (arith, ap length whole, tail)),
      short,
    )
