-- ===== src/DnsWire/Name/Bounds.antt =====
-- The rounds of `ReadName` of core/dnswire/dnswire.go: fuel and offsets.
use tenebra.Prelude.{
  ℕ, zero, suc, ◌+◌, ◌*◌, ◌-◌, ◌/◌, ◌%◌, ◌≤◌, ◌<◌, ◌≡◌, refl, inl, inr, Bool-cases, Option, none,
  some, Text, length, ltb, leb, ◌==◌, arith,
}
use tenebra.DnsWire.Result.{
  Result, ok, err, panic, stuck, Returns, Returns-bind, byte_at, slice, byte_at-Returns,
  slice-Returns,
}
use tenebra.DnsWire.Name.{
  Cursor, Round, done, more, or_else, max_pointers, label_round, jump_to, pointer_round, kind_round,
  name_round, read_loop, name_fuel, start, read_name,
}

-- The offset behind the name, once it is set, lies behind the start and inside the message.
abbrev NextOk : ℕ → Text → Option ℕ → ℕ → Type 0
NextOk from msg none off = from ≤ off
NextOk from msg (some n) off = (from < n) × (n ≤ length msg)

-- What a round keeps: at most `max_pointers` jumps so far, and the bound on `next`.
record Safe (from : ℕ) (msg : Text) (c : Cursor) : Type 0 where
  jumps : c.pointers ≤ max_pointers
  next_ok : NextOk from msg c.next c.off

abbrev measure : Text → Cursor → ℕ
measure msg c = (max_pointers - c.pointers) * (length msg + 1) + (length msg + 1 - c.off)

-- A round ends inside the bounds, or goes on from safe variables that are nearer to the end.
abbrev Outcome : ℕ → Text → Cursor → Round → Type 0
Outcome from msg c (done name next) = (from < next) × (next ≤ length msg)
Outcome from msg c (more c') = Safe from msg c' × (measure msg c' < measure msg c)

or_else_bounds :
    (from : ℕ) (msg : Text) (next : Option ℕ) (off n : ℕ)
    → NextOk from msg next off
    → off < n
    → n ≤ length msg
    → (from < or_else next n) × (or_else next n ≤ length msg)
or_else_bounds from msg none off n h lt le = omega arith
or_else_bounds from msg (some m) off n h lt le = h

NextOk-later :
    (from : ℕ) (msg : Text) (next : Option ℕ) (off off' : ℕ)
    → NextOk from msg next off
    → off ≤ off'
    → NextOk from msg next off'
NextOk-later from msg none off off' h le = omega arith
NextOk-later from msg (some m) off off' h le = h

label_round-Returns :
    (from : ℕ) (msg : Text) (c : Cursor) (b : ℕ)
    → Safe from msg c
    → c.off < length msg
    → Returns (Outcome from msg c) (label_round msg c b)
unfolding label_round
label_round-Returns from msg c b s h = elim (Bool-cases (b == 0)) [
  | inl root ↦ rw root (or_else_bounds from msg c.next c.off (c.off + 1) s.next_ok (omega arith) h')
  | inr label ↦ elim (Bool-cases (ltb (length msg) (c.off + 1 + b))) [
    | inl cut ↦ rw (label, cut) tt
    | inr fits ↦
        let inside : c.off + 1 + b ≤ length msg = ground arith in
        rw (label, fits)
          (Returns-bind _ _ (slice msg (c.off + 1) (c.off + 1 + b)) _
            (slice-Returns msg (c.off + 1) (c.off + 1 + b) (omega arith) inside)
            λ l _. (
              record {
                jumps = s.jumps;
                next_ok = NextOk-later from msg c.next c.off _ s.next_ok (omega arith);
              },
              omega arith,
            ))
  ]
]
  where
    h' : c.off + 1 ≤ length msg
    h' = omega arith

-- A jump uses up one pointer, and that outweighs any way back.
jump_measure :
    (p L off ptr : ℕ)
    → p + 1 ≤ max_pointers
    → off < L
    → (max_pointers - (p + 1)) * (L + 1) + (L + 1 - ptr)
      < (max_pointers - p) * (L + 1) + (L + 1 - off)
jump_measure p L off ptr h lt =
    let e : max_pointers - p ≡ (max_pointers - (p + 1)) + 1 = omega arith in rw e (omega arith)

jump_to-Returns :
    (from : ℕ) (msg : Text) (c : Cursor) (ptr : ℕ)
    → Safe from msg c
    → c.off + 1 < length msg
    → Returns (Outcome from msg c) (jump_to c ptr)
unfolding jump_to
jump_to-Returns from msg c ptr s h = elim (Bool-cases (leb c.off ptr)) [
  | inl ahead ↦ rw ahead tt
  | inr back ↦ elim (Bool-cases (ltb max_pointers (c.pointers + 1))) [
    | inl many ↦ rw (back, many) tt
    | inr few ↦
        rw (back, few)
          (
            record {
              jumps = ground arith;
              next_ok =
                  or_else_bounds from msg c.next c.off (c.off + 2) s.next_ok (omega arith)
                    (omega arith);
            },
            jump_measure c.pointers (length msg) c.off ptr (ground arith) (omega arith),
          )
  ]
]

pointer_round-Returns :
    (from : ℕ) (msg : Text) (c : Cursor) (b : ℕ)
    → Safe from msg c
    → Returns (Outcome from msg c) (pointer_round msg c b)
unfolding pointer_round
pointer_round-Returns from msg c b s = elim (Bool-cases (leb (length msg) (c.off + 1))) [
  | inl cut ↦ rw cut tt
  | inr fits ↦
      let inside : c.off + 1 < length msg = ground arith in
      rw fits (
        Returns-bind _ _ (byte_at msg (c.off + 1)) _ (byte_at-Returns msg (c.off + 1) inside)
          λ low _. jump_to-Returns from msg c (b % 64 * 256 + low) s inside)
]

kind_round-Returns :
    (from : ℕ) (msg : Text) (c : Cursor) (b : ℕ)
    → Safe from msg c
    → c.off < length msg
    → Returns (Outcome from msg c) (kind_round msg c b)
unfolding kind_round
kind_round-Returns from msg c b s h = elim (Bool-cases (b / 64 % 4 == 0)) [
  | inl label ↦ rw label (label_round-Returns from msg c b s h)
  | inr other ↦ elim (Bool-cases (b / 64 % 4 == 3)) [
    | inl pointer ↦ rw (other, pointer) (pointer_round-Returns from msg c b s)
    | inr reserved ↦ rw (other, reserved) tt
  ]
]

name_round-Returns :
    (from : ℕ) (msg : Text) (c : Cursor)
    → Safe from msg c
    → Returns (Outcome from msg c) (name_round msg c)
unfolding name_round
name_round-Returns from msg c s = elim (Bool-cases (leb (length msg) c.off)) [
  | inl out ↦ rw out tt
  | inr inside ↦
      let h : c.off < length msg = ground arith in
      rw inside (
        Returns-bind _ _ (byte_at msg c.off) _ (byte_at-Returns msg c.off h)
          λ b _. kind_round-Returns from msg c b s h)
]

abbrev NameBounds : ℕ → Text → Text × ℕ → Type 0
NameBounds from msg r = (from < r.1) × (r.1 ≤ length msg)

-- One round of `read_loop`, on the outcome of `name_round`.
loop_step :
    (from : ℕ) (msg : Text) (fuel : ℕ) (c : Cursor) (r : Result Round)
    → name_round msg c ≡ r
    → Returns (Outcome from msg c) r
    → ((c' : Cursor)
        → Safe from msg c' × (measure msg c' < measure msg c)
        → Returns (NameBounds from msg) (read_loop fuel msg c'))
    → Returns (NameBounds from msg) (read_loop (suc fuel) msg c)
unfolding read_loop
loop_step from msg fuel c (ok (done name next)) e h ih = rw (e, read_loop) h
loop_step from msg fuel c (ok (more c')) e h ih = rw (e, read_loop) (ih c' h)
loop_step from msg fuel c (err x) e h ih = rw (e, read_loop) tt
loop_step from msg fuel c panic e h ih = absurd h
loop_step from msg fuel c stuck e h ih = absurd h

read_loop-Returns :
    (from : ℕ) (msg : Text) (fuel : ℕ) (c : Cursor)
    → Safe from msg c
    → measure msg c < fuel
    → Returns (NameBounds from msg) (read_loop fuel msg c)
read_loop-Returns from msg zero c s h = absurd (omega arith)
read_loop-Returns from msg (suc fuel) c s h =
    loop_step from msg fuel c (name_round msg c) refl (name_round-Returns from msg c s)
      λ c' r. read_loop-Returns from msg fuel c' r.0 (omega (arith, r.1))

-- On every message and at every offset, `ReadName` returns a name or an error: it ends within its
-- fuel and reads no byte out of range. The offset that it returns with a name lies behind the one
-- that it was given, and inside the message.
pub read_name-Returns :
    (msg : Text) (off : ℕ) → Returns (λ r. (off < r.1) × (r.1 ≤ length msg)) (read_name msg off)
unfolding read_name
read_name-Returns msg off =
    read_loop-Returns off msg (name_fuel msg) (start off)
      (record { jumps = omega arith; next_ok = omega arith }) (omega arith)
