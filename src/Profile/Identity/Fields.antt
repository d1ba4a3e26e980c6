-- ===== src/Profile/Identity/Fields.antt =====
-- The text that `serverID` of core/profile/profile.go hashes, and the fields in it.
use tenebra.Prelude.{
  ℕ, zero, suc, ◌/◌, ◌^◌, ◌<◌, List, [], ◌∷◌, ◌++◌, Text, length, ◌≡◌, refl, sym, ap₂, ◌∙◌, arith,
  ℤ,
}
use mathlib.Core.List.{append_assoc}
use tenebra.Prelude.Sort.{All}
use tenebra.Model.{Node}
use tenebra.Profile.Identity.{
  prefix_bytes, write_field, write_fields, identity, wire_guard_fields, tls_fields, reality_fields,
  transport_fields,
}

cons-injective : {x y : ℕ} {xs ys : Text} → x ∷ xs ≡ y ∷ ys → (x ≡ y) × (xs ≡ ys)
cons-injective e = (cc, cc)

-- Equal prefixes stand for equal lengths below 256 to their size.
split_prefix :
    (i m n : ℕ) (a b : Text)
    → m < 256 ^ i
    → n < 256 ^ i
    → prefix_bytes i m ++ a ≡ prefix_bytes i n ++ b
    → (m ≡ n) × (a ≡ b)
unfolding prefix_bytes
split_prefix zero m n a b hm hn e = (omega (arith, hm, hn), e)
split_prefix (suc i) m n a b hm hn e =
    let (low, rest) = cons-injective e in
    let r = split_prefix i (m / 256) (n / 256) a b (omega (arith, hm)) (omega (arith, hn)) rest in
    (omega (arith, low, r.0), r.1)

split_text : (s t a b : Text) → length s ≡ length t → s ++ a ≡ t ++ b → (s ≡ t) × (a ≡ b)
split_text [] [] a b h e = (refl, e)
split_text [] (y ∷ t) a b h e = absurd (omega (arith, h))
split_text (x ∷ s) [] a b h e = absurd (omega (arith, h))
split_text (x ∷ s) (y ∷ t) a b h e =
    let (first, rest) = cons-injective e in
    let r = split_text s t a b (omega (arith, h)) rest in (ap₂ (λ u v. u ∷ v) first r.0, r.1)

split_field :
    (s t a b : Text)
    → length s < 256 ^ 8
    → length t < 256 ^ 8
    → write_field s ++ a ≡ write_field t ++ b
    → (s ≡ t) × (a ≡ b)
unfolding write_field
split_field s t a b hs ht e =
    let r = split_prefix 8 (length s) (length t) (s ++ a) (t ++ b) hs ht (
      sym (append_assoc (prefix_bytes 8 (length s)) s a)
      ∙ e
      ∙ append_assoc (prefix_bytes 8 (length t)) t b) in
    split_text s t a b r.0 r.1

-- Every field is shorter than 2 ^ 64 bytes.
unfoldable pub Sized : List Text → Type 0
Sized = All (λ s. length s < 256 ^ 8)

write_fields-same :
    (ss ts : List Text)
    → Sized ss
    → Sized ts
    → length ss ≡ length ts
    → write_fields ss ≡ write_fields ts
    → ss ≡ ts
unfolding write_fields Sized
write_fields-same [] [] hs ht n e = refl
write_fields-same [] (t ∷ ts) hs ht n e = absurd (omega (arith, n))
write_fields-same (s ∷ ss) [] hs ht n e = absurd (omega (arith, n))
write_fields-same (s ∷ ss) (t ∷ ts) hs ht n e =
    let r = split_field s t (write_fields ss) (write_fields ts) hs.0 ht.0 e in
    let rest = write_fields-same ss ts hs.1 ht.1 (omega (arith, n)) r.1 in
    ap₂ (λ u v. u ∷ v) r.0 rest

module _ (decimal : ℤ → Text) where
  length-identity : (n : Node) → length (identity decimal n) ≡ 13
  unfolding identity wire_guard_fields tls_fields reality_fields transport_fields
  length-identity n = ground arith

  -- The text that is hashed determines the fields that identify a server: nodes that hash the
  -- same text, with fields shorter than 2 ^ 64 bytes, have the same protocol, server, port text,
  -- UUID, password, method, WireGuard keys, Reality keys and transport, in that order, where an
  -- absent part counts as empty texts.
  pub identity-same :
      (m n : Node)
      → Sized (identity decimal m)
      → Sized (identity decimal n)
      → write_fields (identity decimal m) ≡ write_fields (identity decimal n)
      → identity decimal m ≡ identity decimal n
  identity-same m n hm hn e =
      write_fields-same (identity decimal m) (identity decimal n) hm hn
        (length-identity m ∙ sym (length-identity n)) e
