-- ===== src/Fallback/Strategy/Laws.antt =====
-- `ApplyTo` of core/fallback/strategy.go: its scope, and the cascade.
use tenebra.Prelude.{
  true, false, none, some, codes, text_eq, text_eq_iff, ◌≡◌, if◌then◌else◌, arith,
}
use tenebra.Model.{Tls, Node}
use tenebra.Fallback.Strategy.{is_default, Strategy, reshape, apply_to}

-- `t'` is `t` but for its fingerprint, server name and fragmentation, and each of these is as it
-- was or as the strategy has it.
pub record Reshaped (s : Strategy) (t t' : Tls) : Type 0 where
  pub enabled : t'.enabled ≡ t.enabled
  pub insecure : t'.insecure ≡ t.insecure
  pub alpn : t'.alpn ≡ t.alpn
  pub reality : t'.reality ≡ t.reality
  pub fingerprint :
      t'.fingerprint ≡ (if text_eq s.fingerprint (codes "") then t.fingerprint else s.fingerprint)
  pub server_name :
      t'.server_name ≡ (if text_eq s.server_name (codes "") then t.server_name else s.server_name)
  pub fragment : t'.fragment ≡ (if s.fragment then true else t.fragment)

-- A strategy changes nothing of a node but its TLS block: it gives none to a node without one, and
-- in one it sets the fingerprint and the server name that it names, and fragmentation if it asks
-- for that.
pub apply_to_scope :
    (s : Strategy) (n : Node)
    → (apply_to s n ≡ record n { tls = (apply_to s n).tls })
      × (n.tls ≡ none → (apply_to s n).tls ≡ none)
      × ((t : Tls) → n.tls ≡ some t → (t' : Tls) × ((apply_to s n).tls ≡ some t') × Reshaped s t t')
unfolding apply_to reshape
apply_to_scope s n =
    (ground arith, λ h. ground arith, λ t h. (reshape s t, ground arith, ground arith))

-- `later` sets all that `earlier` sets.
pub record Covers (later earlier : Strategy) : Type 0 where
  pub fingerprint : later.fingerprint ≡ codes "" → earlier.fingerprint ≡ codes ""
  pub server_name : later.server_name ≡ codes "" → earlier.server_name ≡ codes ""
  pub fragment : later.fragment ≡ false → earlier.fragment ≡ false

-- A strategy that sets all that an earlier one sets gives the same node whether or not the
-- earlier one was applied before.
pub apply_to-absorb :
    (later earlier : Strategy) (n : Node)
    → Covers later earlier
    → apply_to later (apply_to earlier n) ≡ apply_to later n
unfolding apply_to reshape
apply_to-absorb later earlier n c = ground (
  arith,
  text_eq_iff later.fingerprint (codes ""),
  text_eq_iff earlier.fingerprint (codes ""),
  text_eq_iff later.server_name (codes ""),
  text_eq_iff earlier.server_name (codes ""),
)

-- The default strategy leaves the node.
pub apply_to-default : (s : Strategy) (n : Node) → is_default s ≡ true → apply_to s n ≡ n
unfolding apply_to
apply_to-default s n e = ground arith
