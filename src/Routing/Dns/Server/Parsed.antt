-- ===== src/Routing/Dns/Server/Parsed.antt =====
-- `dnsServer` of core/routing/dns.go on an address that `ValidDNSServer` accepts.
use tenebra.Prelude.{
  Bool, true, false, not, ◌&&◌, Bool-cases, Option, none, some, Text, codes, text_eq, text_eq_iff,
  ℤ, pos, lt_int, ◌≡◌, ◌≢◌, if◌then◌else◌, refl, inl, inr, arith,
}
use tenebra.Routing.Dns.Server.{
  Net, scheme_of, cut_path, is_scheme, is_doh, valid_dns_host, valid_dns_server, valid_endpoint,
  valid_port, endpoint, with_port, dns_server,
}

-- A port that is given lies between 1 and 65535.
abbrev pub IsPort : Option ℤ → Type 0
IsPort none = Unit
IsPort (some n) = (lt_int n (pos 1) ≡ false) × (lt_int (pos 65535) n ≡ false)

module _ (net : Net) where
  number-IsPort :
      (n : ℤ) → valid_port net (some n) ≡ true → IsPort (if lt_int (pos 0) n then some n else none)
  unfolding valid_port
  number-IsPort n h = elim (Bool-cases (lt_int (pos 0) n)) [
    | inl t ↦ rw t (ground arith, ground arith)
    | inr f ↦ rw f tt
  ]

  both : (b c : Bool) → (if not b then false else c) ≡ true → (b ≡ true) × (c ≡ true)
  both b c h = ground arith

  abbrev Sound : Text × ℤ → Type 0
  Sound e = (valid_dns_host net e.0 ≡ true) × IsPort (if lt_int (pos 0) e.1 then some e.1 else none)

  numbered :
      (host n : Text) (o : Option ℤ)
      → (if not (valid_port net o) then false else valid_dns_host net n) ≡ true
      → Sound (with_port net host n o)
  unfolding with_port valid_port
  numbered host n none h = cc
  numbered host n (some k) h =
      let r = both (valid_port net (some k)) (valid_dns_host net n) h in (r.1, number-IsPort k r.0)

  endpoint_valid :
      (host : Text) (split : Option (Text × Text))
      → valid_endpoint net host split ≡ true
      → Sound (endpoint net host split)
  unfolding valid_endpoint endpoint
  endpoint_valid host none h = (h, tt)
  endpoint_valid host (some (n, p)) h = numbered host n (net.atoi p) h

passed :
    (e k p d v : Bool)
    → e ≡ false
    → (if e then true else if not k then false else if p && not d then false else v) ≡ true
    → (k ≡ true) × ((p && not d) ≡ false) × (v ≡ true)
passed e k p d v f h = ground arith

kept_path :
    (path : Text) (d : Bool)
    → (not (text_eq path (codes "")) && not d) ≡ false
    → (if not (text_eq path (codes "")) && d then path else codes "") ≡ path
kept_path path d h = ground (arith, text_eq_iff path (codes ""))

named_address : (addr : Text) → addr ≢ codes "" → text_eq addr (codes "") ≡ false
named_address addr named = elim (Bool-cases (text_eq addr (codes ""))) [
  | inl e ↦ absurd (named ((text_eq_iff addr (codes "")).0 e))
  | inr f ↦ f
]

-- For an address that `ValidDNSServer` accepts and that is not empty, `dnsServer` keeps the scheme
-- and the path that are written in it, the server is a valid host, and the port, where the server
-- has one, lies between 1 and 65535.
pub dns_server_valid :
    (net : Net) (tag addr detour : Text)
    → addr ≢ codes ""
    → valid_dns_server net addr ≡ true
    → ((dns_server net tag addr detour).kind ≡ (scheme_of addr).0)
      × ((dns_server net tag addr detour).path ≡ (cut_path (scheme_of addr).1).1)
      × (valid_dns_host net (dns_server net tag addr detour).server ≡ true)
      × IsPort (dns_server net tag addr detour).server_port
unfolding dns_server valid_dns_server
dns_server_valid net tag addr detour named h =
    let scheme = (scheme_of addr).0 in
    let host = (cut_path (scheme_of addr).1).0 in
    let path = (cut_path (scheme_of addr).1).1 in
    let (known, fits, valid) =
      passed (text_eq addr (codes "")) (is_scheme scheme) (not (text_eq path (codes "")))
        (is_doh scheme) (valid_endpoint net host (net.split_host_port host))
        (named_address addr named) h in
    let e = endpoint_valid net host (net.split_host_port host) valid in
    rw known (refl, kept_path path (is_doh scheme) fits, e.0, e.1)
