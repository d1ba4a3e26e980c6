-- ===== src/DnsWire/Response/Chain.antt =====
-- The records that `ParseResponse` of core/dnswire/dnswire.go follows.
use tenebra.Prelude.{
  ℕ, zero, suc, ◌≡◌, inl, inr, true, false, Bool-cases, none, some, Option-cases, List, [], ◌∷◌,
  ◌++◌, Text, text_eq, lookup, any, In, In-append_cases, arith,
}
use tenebra.DnsWire.Result.{ok, bind-eq-ok}
use tenebra.DnsWire.Encode.{canonical_host}
use tenebra.DnsWire.Response.Records.{Answer, InReply, Gives, Aliases}
use tenebra.DnsWire.Response.Records.Filed.{IsFiled, read_tables-IsFiled}
use tenebra.DnsWire.Response.{
  Ip, Tables, addresses, follow_chain, max_hops, read_tables, some_address, parse_response,
}

-- `name` is `start`, or a CNAME record of the reply leads to it from a name that is linked to
-- `start`.
pub data Linked (msg start : Text) : Text → Type 0 where
  here : Linked msg start start
  hop :
      {name target : Text} {a : Answer}
      → Linked msg start name
      → InReply msg a
      → Aliases msg a name target
      → Linked msg start target

-- An address record of the reply, whose owner is linked to `start`.
pub record BoundTo (msg start : Text) (ip : Ip) : Type 0 where
  pub name : Text
  pub linked : Linked msg start name
  pub answer : Answer
  pub listed : InReply msg answer
  pub gives : Gives msg answer name ip

module _ (hops : ℕ) (t : Tables) (seen : List Text) (cur : Text) where
  seen_step : any (text_eq cur) seen ≡ true → follow_chain (suc hops) t seen cur ≡ []
  unfolding follow_chain
  seen_step e = rw (e, follow_chain)

  last_step :
      any (text_eq cur) seen ≡ false
      → lookup cur t.cnames ≡ none
      → follow_chain (suc hops) t seen cur ≡ addresses t.ips cur ++ []
  unfolding follow_chain
  last_step e f = rw (e, follow_chain) (rw (f, follow_chain))

  hop_step :
      (target : Text)
      → any (text_eq cur) seen ≡ false
      → lookup cur t.cnames ≡ some target
      → follow_chain (suc hops) t seen cur
        ≡ addresses t.ips cur ++ follow_chain hops t (cur ∷ seen) target
  unfolding follow_chain
  hop_step target e f = rw (e, follow_chain) (rw (f, follow_chain))

module _ (msg : Text) (t : Tables) (filed : IsFiled msg (InReply msg) t) (start : Text) where
  addresses-BoundTo :
      (name : Text) (ip : Ip)
      → Linked msg start name
      → In ip (addresses t.ips name)
      → BoundTo msg start ip
  addresses-BoundTo name ip l i =
      let (a, k, g) = filed.given name ip i in
      record { name = name; linked = l; answer = a; listed = k; gives = g }

  follow_chain-BoundTo :
      (hops : ℕ) (seen : List Text) (cur : Text) (ip : Ip)
      → Linked msg start cur
      → In ip (follow_chain hops t seen cur)
      → BoundTo msg start ip
  follow_chain-BoundTo zero seen cur ip l h = absurd (unfold follow_chain in h)
  follow_chain-BoundTo (suc hops) seen cur ip l h = elim (Bool-cases (any (text_eq cur) seen)) [
    | inl old ↦ absurd (rw (seen_step hops t seen cur old) at h)
    | inr new ↦ elim (Option-cases (lookup cur t.cnames)) [
      | inl e ↦
          elim (In-append_cases ip (addresses t.ips cur) []
            (rw (last_step hops t seen cur new e) at h)) [
              | inl i ↦ addresses-BoundTo cur ip l i
              | inr i ↦ absurd i
            ]
      | inr (target, e) ↦
          let (a, k, g) = filed.aliased cur target e in
          elim (In-append_cases ip (addresses t.ips cur) (follow_chain hops t (cur ∷ seen) target)
            (rw (hop_step hops t seen cur target new e) at h)) [
              | inl i ↦ addresses-BoundTo cur ip l i
              | inr i ↦ follow_chain-BoundTo hops (cur ∷ seen) target ip (Linked.hop l k g) i
            ]
    ]
  ]

some_address-eq : (ips l : List Ip) → some_address ips ≡ ok l → ips ≡ l
unfolding some_address
some_address-eq [] l h = cc
some_address-eq (ip ∷ ips) l h = ground arith

-- Every address that `ParseResponse` returns is the data of an A or AAAA record among the answers of
-- the reply, 4 or 16 bytes long, whose owner is the canonical host, or is reached from it along
-- CNAME records among these answers.
pub parse_response-BoundTo :
    (msg host : Text) (qtype : ℕ) {ips : List Ip}
    → parse_response msg host qtype ≡ ok ips
    → (ip : Ip) → In ip ips
    → BoundTo msg (canonical_host host) ip
unfolding parse_response
parse_response-BoundTo msg host qtype {ips} h ip i =
    let (t, read, rest) = bind-eq-ok (read_tables msg) _ h in
    let start = canonical_host host in
    follow_chain-BoundTo msg t (read_tables-IsFiled msg t read) start max_hops [] start ip
      Linked.here (rw (some_address-eq _ ips rest) i)
