-- ===== src/Tests/DnsWire.antt =====
-- A query's name, and a reply with one address.
use tenebra.Prelude.{
  ◌≤◌, ◌<◌, [], ◌∷◌, ◌++◌, Text, codes, ◌≡◌, refl, inl, length, text_eq, lookup, insert,
}
use tenebra.DnsWire.Result.{ok, Returns, u16_at, byte_at, slice}
use tenebra.DnsWire.Encode.{canonical_host, encode_name, trim_dot, encode_labels, split_dots}
use tenebra.DnsWire.Name.{read_name, name_round}
use tenebra.DnsWire.Name.Bounds.{read_name-Returns}
use tenebra.DnsWire.Name.Encoded.{read_name-encode_name}
use tenebra.DnsWire.Response.{
  Ip, read_tables, parse_response, skip_questions, read_answers, read_record, follow_chain,
  addresses, add_ip,
}
use tenebra.DnsWire.Response.Returns.{parse_response-Returns}
use tenebra.DnsWire.Response.Chain.{BoundTo, parse_response-BoundTo}

abbrev host : Text
host = codes "A.io."

abbrev encoded : Text
encoded = 1 ∷ b'A' ∷ 2 ∷ b'i' ∷ b'o' ∷ 0 ∷ []

host_encoded : encode_name host ≡ ok encoded
unfolding encode_name text_eq trim_dot encode_labels split_dots
host_encoded = refl

read_name-encode_name_example :
    (read_name ((9 ∷ 9 ∷ []) ++ (encoded ++ 7 ∷ [])) 2 ≡ ok (canonical_host host, 8))
    × (length encoded ≤ 255)
read_name-encode_name_example = read_name-encode_name host (9 ∷ 9 ∷ []) (7 ∷ []) host_encoded

-- A pointer to itself.
read_name-Returns_example : Returns (λ r. (0 < r.1) × (r.1 ≤ 2)) (read_name (192 ∷ 0 ∷ []) 0)
read_name-Returns_example = read_name-Returns (192 ∷ 0 ∷ []) 0

abbrev reply : Text
reply =
    0 ∷ 0 ∷ 128 ∷ 0 ∷ 0 ∷ 0 ∷ 0 ∷ 1 ∷ 0 ∷ 0 ∷ 0 ∷ 0 ∷ 1 ∷ b'a' ∷ 2 ∷ b'i' ∷ b'o' ∷ 0 ∷ 0 ∷ 1 ∷ 0 ∷ 1
    ∷ 0 ∷ 0 ∷ 0 ∷ 60 ∷ 0 ∷ 4 ∷ 10 ∷ 0 ∷ 0 ∷ 7 ∷ []

abbrev address : Ip
address = 10 ∷ 0 ∷ 0 ∷ 7 ∷ []

reply_parsed : parse_response reply host 1 ≡ ok (address ∷ [])
unfolding parse_response read_tables u16_at byte_at skip_questions read_answers read_record
    read_name name_round slice follow_chain addresses lookup add_ip insert text_eq canonical_host
reply_parsed = refl

parse_response-Returns_example : Returns (λ ips. 0 < length ips) (parse_response reply host 1)
parse_response-Returns_example = parse_response-Returns reply host 1

-- A CNAME record for the host, and the address of its target.
abbrev aliased : Text
aliased =
    0 ∷ 0 ∷ 128 ∷ 0 ∷ 0 ∷ 0 ∷ 0 ∷ 2 ∷ 0 ∷ 0 ∷ 0 ∷ 0 ∷ 1 ∷ b'a' ∷ 2 ∷ b'i' ∷ b'o' ∷ 0 ∷ 0 ∷ 5 ∷ 0 ∷ 1
    ∷ 0 ∷ 0 ∷ 0 ∷ 60 ∷ 0 ∷ 3 ∷ 1 ∷ b'b' ∷ 0 ∷ 1 ∷ b'b' ∷ 0 ∷ 0 ∷ 1 ∷ 0 ∷ 1 ∷ 0 ∷ 0 ∷ 0 ∷ 60 ∷ 0 ∷ 4
    ∷ 10 ∷ 0 ∷ 0 ∷ 7 ∷ []

aliased_parsed : parse_response aliased host 1 ≡ ok (address ∷ [])
unfolding parse_response read_tables u16_at byte_at skip_questions read_answers read_record
    read_name name_round slice follow_chain addresses lookup add_ip insert text_eq canonical_host
aliased_parsed = refl

parse_response-BoundTo_example : BoundTo aliased (canonical_host host) address
parse_response-BoundTo_example =
    parse_response-BoundTo aliased host 1 aliased_parsed address (inl refl)
