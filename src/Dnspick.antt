-- ===== src/Dnspick.antt =====
-- core/dnspick/dnspick.go: the choice of a resolver among measured candidates. The Go map from an
-- address to the first index that has it is a search for that index.
pub mod Choice
use tenebra.Prelude.{
  ℕ, suc, Bool, true, false, ◌||◌, ◌&&◌, not, Option, none, some, List, [], ◌∷◌, Text, codes,
  text_eq, ℤ, lt_int, eq_int, ltb, if◌then◌else◌,
}
use tenebra.Prelude.Sort.{sort_stable}

abbrev pub Kind : Type 0
Kind = Text

abbrev pub kind_doh : Kind
kind_doh = codes "doh"

abbrev pub kind_dot : Kind
kind_dot = codes "dot"

abbrev pub kind_plain : Kind
kind_plain = codes "plain"

-- `Kind.Encrypted`.
unfoldable pub encrypted : Kind → Bool
encrypted k = text_eq k kind_doh || text_eq k kind_dot

pub record Candidate : Type 0 where
  pub name : Text
  pub address : Text
  pub kind : Kind

pub record Result : Type 0 where
  pub candidate : Candidate
  pub ok : Bool
  pub rtt_ms : ℤ
  pub err : Text

-- `idx[address]`: the first index of the address; 0 is the map's answer for a missing key.
unfoldable pub first_index : List Result → Text → ℕ
first_index [] address = 0
first_index (r ∷ rs) address =
    let rest = first_index rs address in if text_eq r.candidate.address address then 0 else suc rest

same_bool : Bool → Bool → Bool
same_bool a b = if a then b else not b

-- The comparison of `Rank`.
unfoldable pub less : (Text → ℕ) → Result → Result → Bool
unfolding same_bool
less idx ra rb =
    if not (same_bool ra.ok rb.ok)
    then ra.ok
    else if not (same_bool (encrypted ra.candidate.kind) (encrypted rb.candidate.kind))
    then encrypted ra.candidate.kind
    else if not (eq_int ra.rtt_ms rb.rtt_ms)
    then lt_int ra.rtt_ms rb.rtt_ms
    else ltb (idx ra.candidate.address) (idx rb.candidate.address)

-- `Rank`.
unfoldable pub rank : List Result → List Result
rank results = sort_stable (less (first_index results)) results

first_ok : List Result → Option Candidate
first_ok [] = none
first_ok (r ∷ rs) = if r.ok then some r.candidate else none

-- `Best`.
unfoldable pub best : List Result → Option Candidate
unfolding first_ok
best results = first_ok (rank results)

candidate : Text → Text → Kind → Candidate
candidate n a k = record { name = n; address = a; kind = k }

-- `DirectCandidates`.
unfoldable pub direct_candidates : List Candidate
unfolding candidate
direct_candidates =
    candidate (codes "AdGuard") (codes "https://dns.adguard-dns.com/dns-query") kind_doh
    ∷ candidate (codes "Comss") (codes "https://dns.comss.one/dns-query") kind_doh
    ∷ candidate (codes "Yandex") (codes "https://common.dot.dns.yandex.net/dns-query") kind_doh
    ∷ candidate (codes "Cloudflare") (codes "https://cloudflare-dns.com/dns-query") kind_doh
    ∷ candidate (codes "Google") (codes "https://dns.google/dns-query") kind_doh
    ∷ candidate (codes "Quad9") (codes "tls://dns.quad9.net") kind_dot
    ∷ candidate (codes "Yandex (plain)") (codes "77.88.8.8") kind_plain
    ∷ candidate (codes "Google (plain)") (codes "8.8.8.8") kind_plain
    ∷ []

-- `RemoteCandidates`.
unfoldable pub remote_candidates : List Candidate
unfolding candidate
remote_candidates =
    candidate (codes "Cloudflare") (codes "tls://1.1.1.1") kind_dot
    ∷ candidate (codes "Google") (codes "https://dns.google/dns-query") kind_doh
    ∷ candidate (codes "Quad9") (codes "tls://dns.quad9.net") kind_dot
    ∷ candidate (codes "AdGuard") (codes "https://dns.adguard-dns.com/dns-query") kind_doh
    ∷ []
