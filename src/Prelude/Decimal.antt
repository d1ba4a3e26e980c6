-- ===== src/Prelude/Decimal.antt =====
-- Numbers in decimal, as `%d` prints them.
use Prim.Native.Nat.{ℕ, zero, suc, ◌+◌, ◌-◌, ◌*◌, ◌/◌, ◌%◌, ◌<◌}
use mathlib.Core.Path.{◌≡◌, refl, ◌∙◌}
use mathlib.Core.Logic.{inl, inr}
use mathlib.Core.List.{[], ◌∷◌, ◌++◌}
use native.Mathlib.Omega.{arith}
use tenebra.Prelude.Tests.{ltb, if◌then◌else◌, Bool-cases}
use tenebra.Prelude.Bytes.{Text}
use tenebra.Prelude.Int.{ℤ, pos, negsuc}

-- A number has fewer digits than it counts, so the fuel is one more than the number.
digits : ℕ → ℕ → Text
digits zero n = []
digits (suc f) n =
    let rest = digits f (n / 10) in (if ltb n 10 then [] else rest) ++ ((b'0' + n % 10) ∷ [])

unfoldable pub decimal : ℕ → Text
unfolding digits
decimal n = digits (suc n) n

unfoldable pub decimal_int : ℤ → Text
decimal_int (pos n) = decimal n
decimal_int (negsuc n) = b'-' ∷ decimal (suc n)

-- The number that digits stand for, behind those that are read.
unfoldable pub value_of : ℕ → Text → ℕ
value_of acc [] = acc
value_of acc (c ∷ s) = value_of (acc * 10 + (c - b'0')) s

value_of-append : (acc : ℕ) (s t : Text) → value_of acc (s ++ t) ≡ value_of (value_of acc s) t
unfolding value_of
value_of-append acc [] t = refl
value_of-append acc (c ∷ s) t = value_of-append (acc * 10 + (c - b'0')) s t

value_of-digits : (f n : ℕ) → n < f → value_of 0 (digits f n) ≡ n
unfolding digits value_of
value_of-digits zero n h = elim h [ ]
value_of-digits (suc f) n h = elim (Bool-cases (ltb n 10)) [
  | inl small ↦ rw small (ground arith)
  | inr large ↦ rw large (
      value_of-append 0 (digits f (n / 10)) ((b'0' + n % 10) ∷ [])
      ∙ omega (arith, value_of-digits f (n / 10) (ground arith)))
]

pub value_of-decimal : (n : ℕ) → value_of 0 (decimal n) ≡ n
unfolding decimal
value_of-decimal n = value_of-digits (suc n) n (omega arith)
