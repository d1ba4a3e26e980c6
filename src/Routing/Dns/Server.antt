-- ===== src/Routing/Dns/Server.antt =====
-- `dnsServer`, `ValidDNSServer` and `validDNSHost` of core/routing/dns.go. `net.SplitHostPort`,
-- `net.ParseIP` and `strconv.Atoi` are parameters.
pub mod Parsed
use tenebra.Prelude.{
  ℕ, Bool, true, false, not, ◌&&◌, ◌||◌, Option, none, some, List, [], ◌∷◌, Text, codes, text_eq,
  has_prefix, has_suffix, any, all, take, drop, length, ltb, leb, ◌==◌, ◌-◌, ℤ, pos, lt_int,
  if◌then◌else◌,
}
use tenebra.DnsWire.Encode.{split_dots}
use tenebra.Routing.Route.{tag_direct}

-- What the code calls of the standard library: a host and a port text, where they can be split;
-- whether a text is an IP address; and the number that a text spells.
pub record Net : Type 0 where
  pub split_host_port : Text → Option (Text × Text)
  pub parse_ip : Text → Bool
  pub atoi : Text → Option ℤ

-- A typed server. An empty text, and `none`, leave the field out.
pub record DnsServer : Type 0 where
  pub kind : Text
  pub tag : Text
  pub server : Text
  pub detour : Text
  pub server_port : Option ℤ
  pub path : Text

abbrev pub onto_scheme : ℕ → Option (Text × Text) → Option (Text × Text)
onto_scheme c none = none
onto_scheme c (some (scheme, rest)) = some (c ∷ scheme, rest)

-- The text in front of the first "://", and behind it.
unfoldable pub cut_scheme : Text → Option (Text × Text)
cut_scheme [] = none
cut_scheme (c ∷ s) =
    let rest = cut_scheme s in
    if has_prefix (c ∷ s) (codes "://") then some ([], drop 3 (c ∷ s)) else onto_scheme c rest

-- The scheme, "udp" where there is none, and the rest of the address.
unfoldable pub scheme_of : Text → Text × Text
unfolding cut_scheme
scheme_of addr = elim (cut_scheme addr) [ none ↦ (codes "udp", addr) | some r ↦ r ]

-- The text in front of the first slash, and from it on.
unfoldable pub cut_path : Text → Text × Text
cut_path [] = ([], [])
cut_path (c ∷ s) =
    let (host, path) = cut_path s in if c == b'/' then ([], c ∷ s) else (c ∷ host, path)

unfoldable pub is_scheme : Text → Bool
is_scheme s =
    any (text_eq s)
      (codes "https" ∷ codes "h3" ∷ codes "tls" ∷ codes "quic" ∷ codes "tcp" ∷ codes "udp" ∷ [])

unfoldable pub is_doh : Text → Bool
is_doh s = text_eq s (codes "https") || text_eq s (codes "h3")

-- The last byte is not at the edge of a label.
ends_with_dash : Text → Bool
ends_with_dash s = has_suffix s (codes "-")

is_label_byte : ℕ → Bool
is_label_byte c =
    (leb b'a' c && leb c b'z')
    || (leb b'A' c && leb c b'Z')
    || (leb b'0' c && leb c b'9')
    || c == b'-'
    || c == b'_'

-- One round of the loop over the labels.
unfoldable pub valid_label : Text → Bool
unfolding ends_with_dash is_label_byte
valid_label label =
    not (text_eq label (codes "") || ltb 63 (length label))
    && not (has_prefix label (codes "-") || ends_with_dash label)
    && all is_label_byte label

-- `h[1 : len(h)-1]` of a text in brackets.
unfoldable pub unbracket : Text → Text
unbracket h =
    if has_prefix h (codes "[") && has_suffix h (codes "]")
    then take (length h - 2) (drop 1 h)
    else h

module _ (net : Net) where
  valid_plain : Text → Bool
  unfolding valid_label
  valid_plain h =
      if text_eq h (codes "")
      then false
      else if net.parse_ip h
      then true
      else if ltb 253 (length h)
      then false
      else all valid_label (split_dots h)

  -- `validDNSHost`.
  unfoldable pub valid_dns_host : Text → Bool
  unfolding valid_plain unbracket
  valid_dns_host h = valid_plain (unbracket h)

  valid_port : Option ℤ → Bool
  valid_port none = false
  valid_port (some n) = not (lt_int n (pos 1) || lt_int (pos 65535) n)

  valid_endpoint : Text → Option (Text × Text) → Bool
  unfolding valid_port
  valid_endpoint host none = valid_dns_host host
  valid_endpoint host (some (h, p)) =
      if not (valid_port (net.atoi p)) then false else valid_dns_host h

  -- `ValidDNSServer`.
  unfoldable pub valid_dns_server : Text → Bool
  unfolding valid_endpoint is_scheme is_doh scheme_of cut_path
  valid_dns_server addr =
      let (scheme, rest) = scheme_of addr in
      let (host, path) = cut_path rest in
      if text_eq addr (codes "")
      then true
      else if not (is_scheme scheme)
      then false
      else if not (text_eq path (codes "")) && not (is_doh scheme)
      then false
      else valid_endpoint host (net.split_host_port host)

  with_port : Text → Text → Option ℤ → Text × ℤ
  with_port host h none = (host, pos 0)
  with_port host h (some n) = (h, n)

  -- `server` and `port`: those that can be split, and the port a number.
  endpoint : Text → Option (Text × Text) → Text × ℤ
  unfolding with_port
  endpoint host none = (host, pos 0)
  endpoint host (some (h, p)) = with_port host h (net.atoi p)

  -- `dnsServer`.
  unfoldable pub dns_server : Text → Text → Text → DnsServer
  unfolding endpoint is_scheme is_doh scheme_of cut_path
  dns_server tag addr detour =
      let (scheme, rest) = scheme_of addr in
      let (host, path) = cut_path rest in
      let (server, port) = endpoint host (net.split_host_port host) in
      let kind = (if is_scheme scheme then scheme else codes "udp") in
      record {
        kind = kind;
        tag = tag;
        server = server;
        detour =
            if not (text_eq detour (codes "")) && not (text_eq detour tag_direct)
            then detour
            else codes "";
        server_port = if lt_int (pos 0) port then some port else none;
        path = if not (text_eq path (codes "")) && is_doh kind then path else codes "";
      }
