-- ===== src/Profile/Identity.antt =====
-- `serverID` and `writeField` of core/profile/profile.go. The hash and the decimal text of a port
-- are parameters; what is modelled is the text that is hashed.
pub mod Fields
use tenebra.Prelude.{
  ℕ, zero, suc, ◌/◌, ◌%◌, Option, none, some, List, [], ◌∷◌, ◌++◌, Text, codes, length, take, map,
  ℤ,
}
use tenebra.Model.{Reality, Tls, Transport, WireGuard, Node}
use tenebra.Profile.{Server}

-- The loop of `writeField`: the lowest byte first.
unfoldable pub prefix_bytes : ℕ → ℕ → Text
prefix_bytes zero n = []
prefix_bytes (suc i) n = (n % 256) ∷ prefix_bytes i (n / 256)

-- `writeField`.
unfoldable pub write_field : Text → Text
unfolding prefix_bytes
write_field s = prefix_bytes 8 (length s) ++ s

unfoldable pub write_fields : List Text → Text
write_fields [] = []
write_fields (s ∷ ss) = write_field s ++ write_fields ss

unfoldable pub wire_guard_fields : Option WireGuard → List Text
wire_guard_fields none = codes "" ∷ codes "" ∷ []
wire_guard_fields (some w) = w.private_key ∷ w.peer_public_key ∷ []

unfoldable pub reality_fields : Option Reality → List Text
reality_fields none = codes "" ∷ codes "" ∷ []
reality_fields (some r) = r.public_key ∷ r.short_id ∷ []

unfoldable pub tls_fields : Option Tls → List Text
unfolding reality_fields
tls_fields none = reality_fields none
tls_fields (some t) = reality_fields t.reality

unfoldable pub transport_fields : Option Transport → List Text
transport_fields none = codes "" ∷ codes "" ∷ codes "" ∷ []
transport_fields (some t) = t.type ∷ t.path ∷ t.service_name ∷ []

module _ (decimal : ℤ → Text) where
  -- The fields that identify a server, in the order in which they are hashed.
  unfoldable pub identity : Node → List Text
  unfolding wire_guard_fields tls_fields transport_fields
  identity n =
      n.protocol
      ∷ n.server
      ∷ decimal n.port
      ∷ n.uuid
      ∷ n.password
      ∷ n.method
      ∷ (wire_guard_fields n.wire_guard ++ (tls_fields n.tls ++ transport_fields n.transport))

  module _ (sha256 : Text → Text) (hex : Text → Text) where
    -- `serverID`.
    unfoldable pub server_id : Node → Text
    unfolding write_fields
    server_id n = hex (take 8 (sha256 (write_fields (identity n))))

    -- `assignServerIDs`.
    unfoldable pub assign_server_ids : List Node → List Server
    assign_server_ids nodes = map (λ n. record { id = server_id n; node = n }) nodes
