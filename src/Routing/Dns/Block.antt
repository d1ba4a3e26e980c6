-- ===== src/Routing/Dns/Block.antt =====
-- `DNS` of core/routing/dns.go: the dns block.
use tenebra.Prelude.{List, [], ◌∷◌, Text}
use tenebra.Routing.Options.{Options}
use tenebra.Routing.Files.{Disk}
use tenebra.Routing.Route.{tag_direct, tag_proxy}
use tenebra.Routing.Dns.{DnsRule, dns_rules, dns_final, strategy, dns_remote_tag, dns_direct_tag}
use tenebra.Routing.Dns.Server.{Net, DnsServer, dns_server}

-- An empty strategy leaves the field out.
pub record DnsBlock : Type 0 where
  pub servers : List DnsServer
  pub rules : List DnsRule
  pub final : Text
  pub strategy : Text

-- `DNS`.
unfoldable pub dns : Net → Disk → Options → DnsBlock
unfolding dns_final
dns net d o = record {
  servers =
      dns_server net dns_remote_tag o.dns_remote tag_proxy
      ∷ dns_server net dns_direct_tag o.dns_direct tag_direct
      ∷ [];
  rules = dns_rules d o;
  final = dns_final o;
  strategy = strategy o;
}
