-- ===== src/DnsWire/Response.antt =====
-- `ParseResponse` and `followChain`. The two Go maps are association lists.
pub mod Returns
pub mod Records
pub mod Chain
use tenebra.Prelude.{
  ℕ, zero, suc, ◌+◌, ◌/◌, ◌%◌, Bool, true, false, not, Option, none, some, List, [], ◌∷◌, ◌++◌,
  Text, text_eq, lookup, insert, length, any, ltb, ◌==◌, if◌then◌else◌,
}
use tenebra.DnsWire.Result.{
  Result, ok, err, ◌>>=◌, byte_at, slice, u16_at, short_response, not_a_response, bad_rcode,
  truncated_question, truncated_header, truncated_data, no_record,
}
use tenebra.DnsWire.Encode.{canonical_host}
use tenebra.DnsWire.Name.{read_name}

abbrev pub type_a : ℕ
type_a = 1

abbrev pub type_cname : ℕ
type_cname = 5

abbrev pub type_aaaa : ℕ
type_aaaa = 28

abbrev pub Ip : Type 0
Ip = List ℕ

-- `cnames` and `ipsByName`.
pub record Tables : Type 0 where
  pub cnames : List (Text × Text)
  pub ips : List (Text × List Ip)

abbrev pub or_nil : Option (List Ip) → List Ip
or_nil none = []
or_nil (some l) = l

-- `ipsByName[name]`.
unfoldable pub addresses : List (Text × List Ip) → Text → List Ip
addresses t name = or_nil (lookup name t)

-- `ipsByName[owner] = append(ipsByName[owner], ip)`.
unfoldable pub add_ip : Tables → Text → Ip → Tables
add_ip t owner ip = record t { ips = insert owner (addresses t.ips owner ++ ip ∷ []) t.ips }

-- The loop over the questions: each is a name and four bytes.
unfoldable pub skip_questions : ℕ → Text → ℕ → Result ℕ
skip_questions zero msg off = ok off
skip_questions (suc n) msg off = read_name msg off >>= λ r. elim (ltb (length msg) (r.1 + 4)) [
  | true ↦ err truncated_question
  | false ↦ skip_questions n msg (r.1 + 4)
]

-- A record's data is an address if its length is that of its type.
unfoldable pub address_record : Tables → Text → ℕ → Text → ℕ → ℕ → Result Tables
address_record t owner size msg off rdlen =
    if rdlen == size then (do ip ← slice msg off (off + rdlen); ok (add_ip t owner ip)) else ok t

-- The switch on the record's type.
unfoldable pub record_data : Tables → Text → ℕ → Text → ℕ → ℕ → Result Tables
unfolding address_record
record_data t owner rtype msg off rdlen =
    if rtype == type_a
    then address_record t owner 4 msg off rdlen
    else if rtype == type_aaaa
    then address_record t owner 16 msg off rdlen
    else if rtype == type_cname
    then (do r ← read_name msg off; ok (record t { cnames = insert owner r.0 t.cnames }))
    else ok t

-- The data of a record at `off`, and the offset behind it.
unfoldable pub record_body : Tables → Text → ℕ → Text → ℕ → ℕ → Result (ℕ × Tables)
unfolding record_data
record_body t owner rtype msg off rdlen =
    if ltb (length msg) (off + rdlen)
    then err truncated_data
    else do t' ← record_data t owner rtype msg off rdlen; ok (off + rdlen, t')

-- The ten bytes between a record's name and its data.
unfoldable pub record_header : Tables → Text → Text → ℕ → Result (ℕ × Tables)
unfolding record_body
record_header t owner msg off = if ltb (length msg) (off + 10) then err truncated_header else do
  rtype ← u16_at msg off
  rdlen ← u16_at msg (off + 8)
  record_body t owner rtype msg (off + 10) rdlen

-- One answer.
unfoldable pub read_record : Tables → Text → ℕ → Result (ℕ × Tables)
unfolding record_header
read_record t msg off = do r ← read_name msg off; record_header t r.0 msg r.1

-- The loop over the answers.
unfoldable pub read_answers : ℕ → Text → ℕ → Tables → Result Tables
read_answers zero msg off t = ok t
read_answers (suc n) msg off t = read_record t msg off >>= λ r. read_answers n msg r.0 r.1

-- `followChain`: the hops left, the names seen, and the name at hand.
unfoldable pub follow_chain : ℕ → Tables → List Text → Text → List Ip
follow_chain zero t seen cur = []
follow_chain (suc hops) t seen cur = elim (any (text_eq cur) seen) [
  | true ↦ []
  | false ↦ addresses t.ips cur ++ (elim (lookup cur t.cnames) [
    | none ↦ []
    | some target ↦ follow_chain hops t (cur ∷ seen) target
  ])
]

abbrev pub max_hops : ℕ
max_hops = 32

-- The checks of the flags, with the number of questions and of answers.
unfoldable pub check_flags : ℕ → ℕ → ℕ → Result (ℕ × ℕ)
check_flags flags qd an =
    if flags / 32768 % 2 == 0
    then err not_a_response
    else if not (flags % 16 == 0)
    then err (bad_rcode (flags % 16))
    else ok (qd, an)

unfoldable pub read_header : Text → Result (ℕ × ℕ)
unfolding check_flags
read_header msg =
    if ltb (length msg) 12
    then err short_response
    else do flags ← u16_at msg 2; qd ← u16_at msg 4; an ← u16_at msg 6; check_flags flags qd an

-- Everything in a reply that bears on its addresses.
unfoldable pub read_tables : Text → Result Tables
unfolding read_header
read_tables msg = do
  counts ← read_header msg
  off ← skip_questions counts.0 msg 12
  read_answers counts.1 msg off (record { cnames = []; ips = [] })

unfoldable pub some_address : List Ip → Result (List Ip)
some_address [] = err no_record
some_address (ip ∷ ips) = ok (ip ∷ ips)

-- `ParseResponse`. The question's type only names the error.
unfoldable pub parse_response : Text → Text → ℕ → Result (List Ip)
unfolding some_address
parse_response msg host qtype = do
  t ← read_tables msg
  some_address (follow_chain max_hops t [] (canonical_host host))
