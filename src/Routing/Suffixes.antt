-- ===== src/Routing/Suffixes.antt =====
-- `normalizeSuffixes` and `ValidDomainSuffix` of core/routing/rules.go, and `normalizeApps` of
-- core/routing/routing.go, which has the same body. White space is that of ASCII. The map of the
-- seen entries is the list of them.
pub mod Normal
pub mod Clean
use tenebra.Prelude.{
  ℕ, Bool, true, false, not, ◌&&◌, ◌||◌, List, [], ◌∷◌, Text, codes, text_eq, to_lower, any, all,
  ltb, leb, ◌==◌, if◌then◌else◌,
}
use tenebra.Prelude.Sort.{sort_stable}

unfoldable pub is_space : ℕ → Bool
is_space c = (leb 9 c && leb c 13) || c == 32

unfoldable pub trim_left : Text → Text
unfolding is_space
trim_left [] = []
trim_left (c ∷ s) = let rest = trim_left s in if is_space c then rest else c ∷ s

-- Without the white space at the end.
unfoldable pub trim_right : Text → Text
unfolding is_space
trim_right [] = []
trim_right (c ∷ s) =
    let rest = trim_right s in if text_eq rest [] && is_space c then [] else c ∷ rest

-- `strings.ToLower(strings.TrimSpace(s))`.
unfoldable pub clean : Text → Text
unfolding trim_left trim_right to_lower
clean s = to_lower (trim_right (trim_left s))

-- The loop over the entries, with those seen.
unfoldable pub collect : List Text → List Text → List Text
collect seen [] = []
collect seen (s ∷ ss) = elim (text_eq (clean s) (codes "") || any (text_eq (clean s)) seen) [
  | true ↦ collect seen ss
  | false ↦ clean s ∷ collect (clean s ∷ seen) ss
]

-- `a < b` on strings.
unfoldable pub text_lt : Text → Text → Bool
text_lt a [] = false
text_lt [] (y ∷ b) = true
text_lt (x ∷ a) (y ∷ b) = let rest = text_lt a b in ltb x y || (x == y && rest)

-- `normalizeSuffixes`, and `normalizeApps`.
unfoldable pub normalize_suffixes : List Text → List Text
unfolding collect
normalize_suffixes suffixes = sort_stable text_lt (collect [] suffixes)

unfoldable pub is_letter : ℕ → Bool
is_letter c = leb b'a' c && leb c b'z'

unfoldable pub is_edge : ℕ → Bool
is_edge c = c == b'.' || c == b'-'

unfoldable pub is_domain_byte : ℕ → Bool
unfolding is_letter is_edge
is_domain_byte c = is_letter c || (leb b'0' c && leb c b'9') || is_edge c

last_byte : ℕ → Text → ℕ
last_byte c [] = c
last_byte c (d ∷ s) = last_byte d s

valid_cleaned : Text → Bool
unfolding last_byte is_domain_byte
valid_cleaned [] = false
valid_cleaned (c ∷ s) =
    not (is_edge c || is_edge (last_byte c s))
    && all is_domain_byte (c ∷ s)
    && any is_letter (c ∷ s)

-- `ValidDomainSuffix`.
unfoldable pub valid_domain_suffix : Text → Bool
unfolding valid_cleaned clean
valid_domain_suffix s = valid_cleaned (clean s)
