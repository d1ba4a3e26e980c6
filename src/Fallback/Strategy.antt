-- ===== src/Fallback/Strategy.antt =====
-- core/fallback/strategy.go: one reshaping of the handshake, and the cascade of them.
pub mod Laws
use tenebra.Prelude.{
  Bool, true, false, not, ◌&&◌, ◌||◌, Option, none, some, List, [], ◌∷◌, Text, codes, text_eq,
  if◌then◌else◌,
}
use tenebra.Model.{Tls, Node}

pub record Strategy : Type 0 where
  pub name : Text
  pub fingerprint : Text
  pub server_name : Text
  pub fragment : Bool

-- `Strategy.IsDefault`.
unfoldable pub is_default : Strategy → Bool
is_default s =
    text_eq s.fingerprint (codes "") && text_eq s.server_name (codes "") && not s.fragment

-- The three assignments to the copied TLS block.
unfoldable pub reshape : Strategy → Tls → Tls
reshape s t = record t {
  fingerprint = if text_eq s.fingerprint (codes "") then t.fingerprint else s.fingerprint;
  server_name = if text_eq s.server_name (codes "") then t.server_name else s.server_name;
  fragment = if s.fragment then true else t.fragment;
}

apply_tls : Strategy → Node → Option Tls → Node
unfolding reshape
apply_tls s n none = n
apply_tls s n (some t) = if is_default s then n else record n { tls = some (reshape s t) }

-- `Strategy.ApplyTo`.
unfoldable pub apply_to : Strategy → Node → Node
unfolding apply_tls is_default
apply_to s n = apply_tls s n n.tls

abbrev pub alt_server_name : Text
alt_server_name = codes "yastatic.net"

abbrev pub default_strategies : List Strategy
default_strategies =
    record {
      name = codes "default";
      fingerprint = codes "";
      server_name = codes "";
      fragment = false;
    }
    ∷ record {
      name = codes "firefox-fp";
      fingerprint = codes "firefox";
      server_name = codes "";
      fragment = false;
    }
    ∷ record {
      name = codes "alt-sni";
      fingerprint = codes "firefox";
      server_name = alt_server_name;
      fragment = false;
    }
    ∷ record {
      name = codes "tls-fragment";
      fingerprint = codes "firefox";
      server_name = alt_server_name;
      fragment = true;
    }
    ∷ []
