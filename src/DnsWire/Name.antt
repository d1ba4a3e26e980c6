-- ===== src/DnsWire/Name.antt =====
-- `ReadName` of core/dnswire/dnswire.go.
pub mod Bounds
pub mod RoundTrip
pub mod Encoded
use tenebra.Prelude.{
  ℕ, zero, suc, ◌+◌, ◌*◌, ◌/◌, ◌%◌, Bool, true, false, Option, none, some, List, [], ◌∷◌, ◌++◌,
  Text, length, ltb, leb, ◌==◌, if◌then◌else◌,
}
use tenebra.DnsWire.Result.{
  Result, ok, err, stuck, ◌>>=◌, byte_at, slice, offset_out_of_range, truncated_label,
  truncated_pointer, non_backward_pointer, too_many_pointers, reserved_label,
}
use tenebra.DnsWire.Encode.{canonical_host}

abbrev pub max_pointers : ℕ
max_pointers = 32

-- The loop's variables. `next` is -1 in the source until it is set.
pub record Cursor : Type 0 where
  pub off : ℕ
  pub next : Option ℕ
  pub pointers : ℕ
  pub sb : Text

abbrev pub or_else : Option ℕ → ℕ → ℕ
or_else none d = d
or_else (some n) d = n

-- What one round of the loop does: it returns, or goes on from other variables.
pub data Round : Type 0 where
  done : Text → ℕ → Round
  more : Cursor → Round

-- `case 0x00`.
unfoldable pub label_round : Text → Cursor → ℕ → Result Round
label_round msg c b =
    if b == 0
    then ok (done (canonical_host c.sb) (or_else c.next (c.off + 1)))
    else if ltb (length msg) (c.off + 1 + b)
    then err truncated_label
    else do
      label ← slice msg (c.off + 1) (c.off + 1 + b)
      ok (more (record c { off = c.off + 1 + b; sb = c.sb ++ (label ++ b'.' ∷ []) }))

-- The guards of a jump to `ptr`.
unfoldable pub jump_to : Cursor → ℕ → Result Round
jump_to c ptr =
    if leb c.off ptr
    then err non_backward_pointer
    else if ltb max_pointers (c.pointers + 1)
    then err too_many_pointers
    else ok (
        more (record c {
          off = ptr;
          next = some (or_else c.next (c.off + 2));
          pointers = c.pointers + 1;
        }))

-- `case 0xC0`.
unfoldable pub pointer_round : Text → Cursor → ℕ → Result Round
unfolding jump_to
pointer_round msg c b =
    if leb (length msg) (c.off + 1)
    then err truncated_pointer
    else do low ← byte_at msg (c.off + 1); jump_to c (b % 64 * 256 + low)

-- The switch on the two high bits of the byte.
unfoldable pub kind_round : Text → Cursor → ℕ → Result Round
unfolding label_round pointer_round
kind_round msg c b =
    if b / 64 % 4 == 0
    then label_round msg c b
    else if b / 64 % 4 == 3
    then pointer_round msg c b
    else err reserved_label

-- One round of the loop.
unfoldable pub name_round : Text → Cursor → Result Round
unfolding kind_round
name_round msg c =
    if leb (length msg) c.off
    then err offset_out_of_range
    else do b ← byte_at msg c.off; kind_round msg c b

unfoldable pub read_loop : ℕ → Text → Cursor → Result (Text × ℕ)
read_loop zero msg c = stuck
read_loop (suc fuel) msg c = elim (name_round msg c) [
  | ok (done name next) ↦ ok (name, next)
  | ok (more c') ↦ read_loop fuel msg c'
  | err e ↦ err e
  | Result.panic ↦ Result.panic
  | Result.stuck ↦ stuck
]

abbrev pub name_fuel : Text → ℕ
name_fuel msg = 33 * (length msg + 1) + 1

abbrev pub start : ℕ → Cursor
start off = record { off = off; next = none; pointers = 0; sb = [] }

-- `ReadName`.
unfoldable pub read_name : Text → ℕ → Result (Text × ℕ)
unfolding read_loop
read_name msg off = read_loop (name_fuel msg) msg (start off)
