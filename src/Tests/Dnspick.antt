-- ===== src/Tests/Dnspick.antt =====
-- A fast plain resolver, an encrypted one, and a broken one.
use tenebra.Prelude.{
  ℕ, Bool, true, false, some, List, [], ◌∷◌, Text, codes, pos, ◌≡◌, refl, text_eq,
}
use tenebra.Prelude.Sort.{sort_stable}
use tenebra.Dnspick.{Result, kind_doh, kind_plain, less, rank, best, encrypted}
use tenebra.Dnspick.Choice.{IsBest, best-some}

abbrev result : Text → Text → Bool → ℕ → Result
result a k up ms = record {
  candidate = record { name = a; address = a; kind = k };
  ok = up;
  rtt_ms = pos ms;
  err = [];
}

abbrev plain : Result
plain = result (codes "8.8.8.8") kind_plain true 5

abbrev doh : Result
doh = result (codes "https://d") kind_doh true 90

abbrev broken : Result
broken = result (codes "https://b") kind_doh false 0

abbrev measured : List Result
measured = plain ∷ broken ∷ doh ∷ []

doh_taken : best measured ≡ some doh.candidate
unfolding best rank sort_stable less encrypted text_eq
doh_taken = refl

best-some_example : (r : Result) × (r.candidate ≡ doh.candidate) × IsBest measured r
best-some_example = best-some measured doh.candidate doh_taken
