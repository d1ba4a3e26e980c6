-- ===== src/DnsWire/Response/Returns.antt =====
-- How `ParseResponse` of core/dnswire/dnswire.go ends.
use tenebra.Prelude.{
  ℕ, zero, suc, ◌+◌, ◌≤◌, ◌<◌, inl, inr, Bool-cases, List, [], ◌∷◌, Text, length, ltb, ◌==◌, arith,
}
use tenebra.DnsWire.Result.{Returns, Returns-bind, slice, u16_at, slice-Returns, u16_at-Returns}
use tenebra.DnsWire.Encode.{canonical_host}
use tenebra.DnsWire.Name.{read_name}
use tenebra.DnsWire.Name.Bounds.{read_name-Returns}
use tenebra.DnsWire.Response.{
  Ip, Tables, skip_questions, address_record, record_data, record_body, record_header, read_record,
  read_answers, follow_chain, max_hops, read_header, read_tables, some_address, parse_response,
  type_a, type_aaaa, type_cname,
}

abbrev Any : {A : Type 0} → A → Type 0
Any a = Unit

skip_questions-Returns : (n : ℕ) (msg : Text) (off : ℕ) → Returns Any (skip_questions n msg off)
unfolding skip_questions
skip_questions-Returns zero msg off = tt
skip_questions-Returns (suc n) msg off =
    Returns-bind _ Any (read_name msg off) _ (read_name-Returns msg off) λ r _.
      elim (Bool-cases (ltb (length msg) (r.1 + 4))) [
        | inl cut ↦ rw cut tt
        | inr fits ↦ rw fits (skip_questions-Returns n msg (r.1 + 4))
      ]

address_record-Returns :
    (t : Tables) (owner : Text) (size : ℕ) (msg : Text) (off rdlen : ℕ)
    → off + rdlen ≤ length msg
    → Returns Any (address_record t owner size msg off rdlen)
unfolding address_record
address_record-Returns t owner size msg off rdlen h = elim (Bool-cases (rdlen == size)) [
  | inl fits ↦ rw fits (
      Returns-bind _ Any (slice msg off (off + rdlen)) _
        (slice-Returns msg off (off + rdlen) (omega arith) h) λ ip _. tt)
  | inr other ↦ rw other tt
]

record_data-Returns :
    (t : Tables) (owner : Text) (rtype : ℕ) (msg : Text) (off rdlen : ℕ)
    → off + rdlen ≤ length msg
    → Returns Any (record_data t owner rtype msg off rdlen)
unfolding record_data
record_data-Returns t owner rtype msg off rdlen h = elim (Bool-cases (rtype == type_a)) [
  | inl a ↦ rw a (address_record-Returns t owner 4 msg off rdlen h)
  | inr not_a ↦ elim (Bool-cases (rtype == type_aaaa)) [
    | inl aaaa ↦ rw (not_a, aaaa) (address_record-Returns t owner 16 msg off rdlen h)
    | inr not_aaaa ↦ elim (Bool-cases (rtype == type_cname)) [
      | inl cname ↦
          rw (not_a, not_aaaa, cname)
            (Returns-bind _ Any (read_name msg off) _ (read_name-Returns msg off) λ r _. tt)
      | inr other ↦ rw (not_a, not_aaaa, other) tt
    ]
  ]
]

record_body-Returns :
    (t : Tables) (owner : Text) (rtype : ℕ) (msg : Text) (off rdlen : ℕ)
    → Returns Any (record_body t owner rtype msg off rdlen)
unfolding record_body
record_body-Returns t owner rtype msg off rdlen =
    elim (Bool-cases (ltb (length msg) (off + rdlen))) [
      | inl cut ↦ rw cut tt
      | inr fits ↦ rw fits (
          Returns-bind Any Any (record_data t owner rtype msg off rdlen) _
            (record_data-Returns t owner rtype msg off rdlen (ground arith)) λ t' _. tt)
    ]

record_header-Returns :
    (t : Tables) (owner msg : Text) (off : ℕ) → Returns Any (record_header t owner msg off)
unfolding record_header
record_header-Returns t owner msg off = elim (Bool-cases (ltb (length msg) (off + 10))) [
  | inl cut ↦ rw cut tt
  | inr fits ↦
      let h : off + 10 ≤ length msg = ground arith in
      rw fits (
        Returns-bind _ Any (u16_at msg off) _ (u16_at-Returns msg off (omega arith)) λ rtype _.
          Returns-bind _ Any (u16_at msg (off + 8)) _ (u16_at-Returns msg (off + 8) (omega arith))
            λ rdlen _. record_body-Returns t owner rtype msg (off + 10) rdlen)
]

read_answers-Returns :
    (n : ℕ) (msg : Text) (off : ℕ) (t : Tables) → Returns Any (read_answers n msg off t)
unfolding read_answers read_record
read_answers-Returns zero msg off t = tt
read_answers-Returns (suc n) msg off t =
    Returns-bind Any Any (read_record t msg off) _
      (Returns-bind _ Any (read_name msg off) _ (read_name-Returns msg off)
        λ r _. record_header-Returns t r.0 msg r.1)
      λ r _. read_answers-Returns n msg r.0 r.1

read_header-Returns : (msg : Text) → Returns Any (read_header msg)
unfolding read_header
read_header-Returns msg = elim (Bool-cases (ltb (length msg) 12)) [
  | inl cut ↦ rw cut tt
  | inr fits ↦
      let h : 12 ≤ length msg = ground arith in
      rw fits (
        Returns-bind _ Any (u16_at msg 2) _ (u16_at-Returns msg 2 (omega arith)) λ flags _.
          Returns-bind _ Any (u16_at msg 4) _ (u16_at-Returns msg 4 (omega arith)) λ qd _.
            Returns-bind _ Any (u16_at msg 6) _ (u16_at-Returns msg 6 (omega arith))
              λ an _. ground arith)
]

read_tables-Returns : (msg : Text) → Returns Any (read_tables msg)
unfolding read_tables
read_tables-Returns msg =
    Returns-bind Any Any (read_header msg) _ (read_header-Returns msg) λ counts _.
      Returns-bind Any Any (skip_questions counts.0 msg 12) _
        (skip_questions-Returns counts.0 msg 12) λ off _. read_answers-Returns counts.1 msg off _

some_address-Returns : (ips : List Ip) → Returns (λ l. 0 < length l) (some_address ips)
unfolding some_address
some_address-Returns [] = tt
some_address-Returns (ip ∷ ips) = omega arith

-- On every message, host and type, `ParseResponse` returns an error or at least one address: no
-- index or slice is out of range, and the loops end.
pub parse_response-Returns :
    (msg host : Text) (qtype : ℕ) → Returns (λ ips. 0 < length ips) (parse_response msg host qtype)
unfolding parse_response
parse_response-Returns msg host qtype =
    Returns-bind Any _ (read_tables msg) _ (read_tables-Returns msg)
      λ t _. some_address-Returns (follow_chain max_hops t [] (canonical_host host))
