-- ===== src/Singbox/Tags.antt =====
-- `sanitizeTag` of core/singbox/outbound.go, and the closure `uniq` of `buildNodes` in builder.go,
-- which `serverTags` of core/control/daemon.go repeats. White space is that of ASCII, and a byte
-- that is no ASCII is part of a rune that stays.
pub mod Free
use tenebra.Prelude.{
  ℕ, zero, suc, ◌+◌, Bool, not, ◌||◌, Option, none, some, List, [], ◌∷◌, ◌++◌, map, Text, codes,
  text_eq, lookup, insert, keep, length, ltb, ◌==◌, if◌then◌else◌,
}
use tenebra.Prelude.Decimal.{decimal}
use tenebra.Routing.Suffixes.{trim_left, trim_right}

-- `strings.TrimSpace`.
abbrev pub trim_space : Text → Text
trim_space s = trim_right (trim_left s)

unfoldable pub tag_byte : ℕ → ℕ
tag_byte c = if ltb c 32 || c == 127 || c == b'"' || c == 92 then b'-' else c

or_node : Text → Text
or_node t = if text_eq t (codes "") then codes "node" else t

unfoldable pub sanitize_tag : Text → Text
unfolding tag_byte or_node
sanitize_tag name = or_node (trim_space (map tag_byte (trim_space name)))

-- The map `seen`. A tag that is not in it reads as 0.
abbrev pub Seen : Type 0
Seen = List (Text × ℕ)

or_zero : Option ℕ → ℕ
or_zero none = 0
or_zero (some n) = n

unfoldable pub count_of : Text → Seen → ℕ
unfolding or_zero
count_of t seen = or_zero (lookup t seen)

-- `delete(seen, tag)`.
unfoldable pub free_tag : Text → Seen → Seen
free_tag t seen = keep (λ (e : Text × ℕ). not (text_eq e.0 t)) seen

-- `seen[base]++`.
unfoldable pub count_up : Text → Seen → Seen
count_up base seen = insert base (count_of base seen + 1) seen

unfoldable pub candidate : Text → ℕ → Text
candidate base n = base ++ (b'-' ∷ decimal n)

-- A tag that is handed out, and the map behind it.
pub record Named : Type 0 where
  pub tag : Text
  pub seen : Seen

abbrev pub named : Text → Seen → Named
named t seen = record { tag = t; seen = insert t 1 seen }

-- The loop behind a collision. Each round that goes on has met a tag of the map, so its length is
-- fuel enough; without fuel the candidate is taken as it is.
unfoldable pub suffix_loop : ℕ → Text → Seen → Named
suffix_loop zero base seen =
    let seen' = count_up base seen in named (candidate base (count_of base seen')) seen'
suffix_loop (suc f) base seen =
    let seen' = count_up base seen in
    let cand = candidate base (count_of base seen') in
    let rest = suffix_loop f base seen' in
    if count_of cand seen' == 0 then named cand seen' else rest

-- `uniq`.
unfoldable pub uniq : Text → Seen → Named
unfolding suffix_loop
uniq name seen =
    let base = sanitize_tag name in
    if count_of base seen == 0 then named base seen else suffix_loop (length seen) base seen
