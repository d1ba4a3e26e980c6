-- ===== src/DnsWire/Result.antt =====
-- What an operation of core/dnswire/dnswire.go on a message ends in.
use tenebra.Prelude.{
  ℕ, ◌+◌, ◌*◌, ◌-◌, ◌≤◌, ◌<◌, ◌≡◌, refl, ◌&&◌, Option, none, some, [], ◌∷◌, Text, length, get_elem?,
  take, drop, leb, if◌then◌else◌, arith,
}

pub data DnsError : Type 0 where
  empty_host invalid_label name_too_long : DnsError
  offset_out_of_range truncated_label truncated_pointer non_backward_pointer : DnsError
  too_many_pointers reserved_label : DnsError
  short_response not_a_response truncated_question truncated_header truncated_data : DnsError
  bad_rcode : ℕ → DnsError
  no_record : DnsError

pub data Result (A : Type 0) : Type 0 where
  ok : A → Result A
  err : DnsError → Result A
  panic : Result A
  stuck : Result A

infixl 5 ◌>>=◌
abbrev pub ◌>>=◌ : {X Y : Type 0} → Result X → (X → Result Y) → Result Y
panic >>= step = panic
stuck >>= step = stuck
err e >>= step = err e
ok x >>= step = step x

-- The operation returned: a value with the property, or an error.
abbrev pub Returns : {A : Type 0} → (A → Type 0) → Result A → Type 0
Returns P (ok a) = P a
Returns P (err e) = Unit
Returns P panic = ⊥
Returns P stuck = ⊥

pub Returns-bind :
    {A B : Type 0} (P : A → Type 0) (Q : B → Type 0) (m : Result A) (f : A → Result B)
    → Returns P m
    → ((a : A) → P a → Returns Q (f a))
    → Returns Q (m >>= f)
Returns-bind P Q (ok a) f h k = k a h
Returns-bind P Q (err e) f h k = tt
Returns-bind P Q panic f h k = h
Returns-bind P Q stuck f h k = h

pub bind-eq-ok :
    {X Y : Type 0} (r : Result X) (step : X → Result Y) {y : Y}
    → (r >>= step) ≡ ok y
    → (x : X) × (r ≡ ok x) × (step x ≡ ok y)
bind-eq-ok panic step e = cc
bind-eq-ok stuck step e = cc
bind-eq-ok (err x) step e = cc
bind-eq-ok (ok x) step e = (x, refl, e)

abbrev pub of_option : {A : Type 0} → Option A → Result A
of_option none = panic
of_option (some a) = ok a

-- `msg[i]`.
unfoldable pub byte_at : Text → ℕ → Result ℕ
byte_at msg i = of_option (get_elem? msg i)

-- `msg[lo:hi]`.
unfoldable pub slice : Text → ℕ → ℕ → Result Text
slice msg lo hi =
    if leb lo hi && leb hi (length msg) then ok (take (hi - lo) (drop lo msg)) else panic

-- `binary.BigEndian.Uint16(msg[i : i+2])`.
unfoldable pub u16_at : Text → ℕ → Result ℕ
u16_at msg i = do hi ← byte_at msg i; lo ← byte_at msg (i + 1); ok (hi * 256 + lo)

get_below : (msg : Text) (i : ℕ) → i < length msg → (b : ℕ) × (get_elem? msg i ≡ some b)
get_below [] i h = elim h [ ]
get_below (b ∷ msg) Prim.Native.Nat.zero h = (b, refl)
get_below (b ∷ msg) (Prim.Native.Nat.suc i) h = get_below msg i (omega arith)

pub byte_at_below : (msg : Text) (i : ℕ) → i < length msg → (b : ℕ) × (byte_at msg i ≡ ok b)
unfolding byte_at
byte_at_below msg i h = let (b, e) = get_below msg i h in (b, rw e)

pub byte_at-Returns :
    (msg : Text) (i : ℕ) → i < length msg → Returns (λ b. Unit {0}) (byte_at msg i)
byte_at-Returns msg i h = rw (byte_at_below msg i h).1 tt

pub slice-Returns :
    (msg : Text) (lo hi : ℕ) → lo ≤ hi → hi ≤ length msg → Returns (λ s. Unit {0}) (slice msg lo hi)
unfolding slice
slice-Returns msg lo hi h k = ground arith

pub u16_at-Returns :
    (msg : Text) (i : ℕ) → i + 2 ≤ length msg → Returns (λ n. Unit {0}) (u16_at msg i)
unfolding u16_at
u16_at-Returns msg i h =
    let (a, p) = byte_at_below msg i (omega arith) in
    let (b, q) = byte_at_below msg (i + 1) (omega arith) in rw p (rw q tt)
