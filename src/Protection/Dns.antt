-- ===== src/Protection/Dns.antt =====
-- `ValidateDNS` of core/protection/dns.go. `url.Parse` and `netip.ParseAddr` are parameters.
use tenebra.Prelude.{Bool, not, ◌&&◌, ◌||◌, Option, none, some, Text, codes, text_eq, if◌then◌else◌}

-- What the code reads of a URL; the flag says that it names a user.
pub record Url : Type 0 where
  pub user : Bool
  pub fragment : Text
  pub scheme : Text
  pub hostname : Text
  pub path : Text
  pub raw_query : Text

-- What the code reads of an address.
pub record Address : Type 0 where
  pub zone : Text
  pub unspecified : Bool
  pub multicast : Bool

pub record Parsers : Type 0 where
  pub parse_url : Text → Option Url
  pub parse_addr : Text → Option Address

-- Why an endpoint is refused.
pub data DnsRefusal : Type 0 where
  not_encrypted not_literal has_path : DnsRefusal

module _ (p : Parsers) where
  check_address : Url → Option Address → Option DnsRefusal
  check_address u none = some not_literal
  check_address u (some ip) =
      if not (text_eq ip.zone (codes "")) || ip.unspecified || ip.multicast
      then some not_literal
      else if text_eq u.scheme (codes "tls")
          && ((not (text_eq u.path (codes "")) && not (text_eq u.path (codes "/")))
              || not (text_eq u.raw_query (codes "")))
      then some has_path
      else none

  check_url : Option Url → Option DnsRefusal
  unfolding check_address
  check_url none = some not_encrypted
  check_url (some u) =
      if u.user
        || not (text_eq u.fragment (codes ""))
        || (not (text_eq u.scheme (codes "https")) && not (text_eq u.scheme (codes "tls")))
      then some not_encrypted
      else check_address u (p.parse_addr u.hostname)

  -- `ValidateDNS`.
  unfoldable pub validate_dns : Text → Option DnsRefusal
  unfolding check_url
  validate_dns endpoint = check_url (p.parse_url endpoint)
