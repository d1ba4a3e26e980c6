-- ===== src/DnsWire/Encode.antt =====
-- `EncodeName` and `EncodeQuery` of core/dnswire/dnswire.go.
use tenebra.Prelude.{
  ℕ, ◌/◌, ◌%◌, ◌||◌, List, [], ◌∷◌, ◌++◌, Text, to_lower, text_eq, length, ltb, ◌==◌, if◌then◌else◌,
}
use tenebra.DnsWire.Result.{Result, ok, err, ◌>>=◌, empty_host, invalid_label, name_too_long}

-- `strings.TrimSuffix(h, ".")`.
unfoldable pub trim_dot : Text → Text
trim_dot [] = []
trim_dot (c ∷ []) = if c == b'.' then [] else c ∷ []
trim_dot (c ∷ d ∷ s) = c ∷ trim_dot (d ∷ s)

-- `CanonicalHost`.
unfoldable pub canonical_host : Text → Text
unfolding trim_dot to_lower
canonical_host h = trim_dot (to_lower h)

abbrev pub onto_first : ℕ → List Text → List Text
onto_first c [] = (c ∷ []) ∷ []
onto_first c (l ∷ ls) = (c ∷ l) ∷ ls

-- `strings.Split(h, ".")`.
unfoldable pub split_dots : Text → List Text
split_dots [] = [] ∷ []
split_dots (c ∷ s) = let rest = split_dots s in if c == b'.' then [] ∷ rest else onto_first c rest

-- The loop over the labels.
unfoldable pub encode_labels : List Text → Result Text
encode_labels [] = ok []
encode_labels (l ∷ ls) =
    let rest = encode_labels ls in
    if length l == 0 || ltb 63 (length l)
    then err invalid_label
    else do out ← rest; ok ((length l % 256) ∷ (l ++ out))

-- The root label and the check of the whole length.
unfoldable pub close_name : Text → Result Text
close_name out =
    let closed = out ++ 0 ∷ [] in if ltb 255 (length closed) then err name_too_long else ok closed

-- `EncodeName`.
unfoldable pub encode_name : Text → Result Text
unfolding close_name
encode_name host =
    let h = trim_dot host in
    if text_eq h [] then err empty_host else do out ← encode_labels (split_dots h); close_name out

abbrev pub u16_bytes : ℕ → Text
u16_bytes n = (n / 256 % 256) ∷ (n % 256) ∷ []

abbrev pub class_in : ℕ
class_in = 1

-- ID 0, recursion desired, one question.
abbrev pub query_header : Text
query_header = 0 ∷ 0 ∷ 1 ∷ 0 ∷ 0 ∷ 1 ∷ 0 ∷ 0 ∷ 0 ∷ 0 ∷ 0 ∷ 0 ∷ []

-- `EncodeQuery`.
unfoldable pub encode_query : Text → ℕ → Result Text
encode_query host qtype = do
  name ← encode_name host
  ok (query_header ++ (name ++ (u16_bytes qtype ++ u16_bytes class_in)))
