-- ===== src/Protection/Policy/Verdict.antt =====
-- The filters of core/protection/policy.go against the description of what may pass.
use tenebra.Prelude.{
  ℕ, Bool, true, false, not, ◌&&◌, ◌||◌, List, [], ◌∷◌, ◌++◌, Option, none, some, ◌==◌,
  if◌then◌else◌, ◌≡◌, refl, ap₂, ◌∙◌, inl, inr, Bool-cases, arith,
}
use tenebra.Protection.Policy.{
  Layer, connect4, connect6, accept4, accept6, ipv6, loopback, Rule, tun_rules, dns_rules,
  app_rules, dhcp_rule, ndp_type_rules, ndp_rules, layer_rules, policy, concat, number_is, rule,
}
use tenebra.Protection.Policy.Traffic.{
  Packet, same_layer, holds, matches, decide, is_dns, is_trusted, is_dhcp, is_local_prefix, is_ndp,
  allowed,
}

or_else : Option Bool → Option Bool → Option Bool
or_else none y = y
or_else (some x) y = some x

when : Bool → Bool → Option Bool
when c v = if c then some v else none

decide-append :
    (p : Packet) (xs ys : List Rule) → decide p (xs ++ ys) ≡ or_else (decide p xs) (decide p ys)
unfolding decide or_else
decide-append p [] ys = refl
decide-append p (r ∷ xs) ys = elim (Bool-cases (matches p r)) [
  | inl e ↦ rw e refl
  | inr e ↦ rw e (decide-append p xs ys)
]

same_layer_refl : (l : Layer) → same_layer l l ≡ true
unfolding same_layer
same_layer_refl connect4 = refl
same_layer_refl connect6 = refl
same_layer_refl accept4 = refl
same_layer_refl accept6 = refl

decide-tun :
    (p : Packet) (luid : ℕ)
    → decide p (tun_rules p.layer luid) ≡ when (not (luid == 0) && p.luid == luid) true
unfolding decide matches tun_rules when holds
decide-tun p luid = let e = same_layer_refl p.layer in ground arith

decide-dns : (p : Packet) → decide p (dns_rules p.layer) ≡ when (is_dns p) false
unfolding decide matches dns_rules when holds is_dns
decide-dns p = let e = same_layer_refl p.layer in ground arith

decide-app : (p : Packet) → decide p (app_rules p.layer) ≡ when (is_trusted p) true
unfolding decide matches app_rules when holds is_trusted
decide-app p = let e = same_layer_refl p.layer in ground arith

decide-dhcp : (p : Packet) → decide p (dhcp_rule p.layer ∷ []) ≡ when (is_dhcp p) true
unfolding decide matches dhcp_rule when holds is_dhcp
decide-dhcp p = let e = same_layer_refl p.layer in ground arith

ndp_of : Packet → ℕ → Bool
ndp_of p typ = p.proto == 58 && p.source == typ && p.target == 0 && is_local_prefix p

decide-ndp_type :
    (p : Packet) (typ : ℕ) → decide p (ndp_type_rules p.layer typ) ≡ when (ndp_of p typ) true
unfolding decide matches ndp_type_rules when holds ndp_of is_local_prefix
decide-ndp_type p typ = let e = same_layer_refl p.layer in ground arith

decide-ndp : (p : Packet) → decide p (ndp_rules p.layer) ≡ when (is_ndp p) true
unfolding ndp_rules is_ndp when decide or_else ndp_of
decide-ndp p = elim (Bool-cases (ipv6 p.layer)) [
  | inl e ↦
      let a =
        decide-append p (ndp_type_rules p.layer 133) (
          ndp_type_rules p.layer 134 ++ ndp_type_rules p.layer 135 ++ ndp_type_rules p.layer 136) in
      let b =
        decide-append p (ndp_type_rules p.layer 134)
          (ndp_type_rules p.layer 135 ++ ndp_type_rules p.layer 136) in
      let c = decide-append p (ndp_type_rules p.layer 135) (ndp_type_rules p.layer 136) in
      rw
        (
          e,
          a,
          b,
          c,
          decide-ndp_type p 133,
          decide-ndp_type p 134,
          decide-ndp_type p 135,
          decide-ndp_type p 136,
        )
        (ground arith)
  | inr e ↦ rw e refl
]

decide-both :
    (p : Packet) (xs ys : List Rule) {a b : Option Bool}
    → decide p xs ≡ a
    → decide p ys ≡ b
    → decide p (xs ++ ys) ≡ or_else a b
decide-both p xs ys first rest = decide-append p xs ys ∙ ap₂ or_else first rest

decide-looped :
    (p : Packet)
    → decide p (rule p.layer 100 true (number_is loopback 0 ∷ []) ∷ []) ≡ when p.looped true
unfolding decide matches when holds
decide-looped p = let e = same_layer_refl p.layer in ground arith

decide-block : (p : Packet) → decide p (rule p.layer 1 false [] ∷ []) ≡ some false
unfolding decide matches holds
decide-block p = let e = same_layer_refl p.layer in ground arith

in_order :
    (looped tun dns app dhcp' ndp : Bool)
    → or_else (when looped true) (
        or_else (when tun true) (
          or_else (when dns false) (
            or_else
              (when app true)
              (or_else (when dhcp' true) (or_else (when ndp true) (some false))))))
      ≡ some (looped || tun || (not dns && (app || dhcp' || ndp)))
unfolding or_else when
in_order looped tun dns app dhcp' ndp = ground arith

decide-layer_rules :
    (p : Packet) (luid : ℕ) → decide p (layer_rules luid p.layer) ≡ some (allowed luid p)
unfolding layer_rules allowed
decide-layer_rules p luid =
    decide-both p (rule p.layer 100 true (number_is loopback 0 ∷ []) ∷ []) _ (decide-looped p) (
      decide-both p (tun_rules p.layer luid) _ (decide-tun p luid) (
        decide-both p (dns_rules p.layer) _ (decide-dns p) (
          decide-both p (app_rules p.layer) _ (decide-app p) (
            decide-both p (dhcp_rule p.layer ∷ []) _ (decide-dhcp p)
              (decide-both p (ndp_rules p.layer) _ (decide-ndp p) (decide-block p))))))
    ∙ in_order p.looped (not (luid == 0) && p.luid == luid) (is_dns p) (is_trusted p) (is_dhcp p)
        (is_ndp p)

-- The filters of another layer never match.
decide-other :
    (p : Packet) (luid : ℕ) (l : Layer)
    → same_layer l p.layer ≡ false
    → decide p (layer_rules luid l) ≡ none
unfolding decide matches layer_rules tun_rules dns_rules app_rules dhcp_rule ndp_rules
    ndp_type_rules ipv6
decide-other p luid connect4 e = ground arith
decide-other p luid connect6 e = ground arith
decide-other p luid accept4 e = ground arith
decide-other p luid accept6 e = ground arith

decide-nothing : (p : Packet) → decide p [] ≡ none
unfolding decide
decide-nothing p = refl

same_layer-same : (l l' : Layer) → same_layer l l' ≡ true → l ≡ l'
unfolding same_layer
same_layer-same connect4 connect4 e = refl
same_layer-same connect6 connect6 e = refl
same_layer-same accept4 accept4 e = refl
same_layer-same accept6 accept6 e = refl
same_layer-same _ _ e = cc

decide-any :
    (p : Packet) (luid : ℕ) (l : Layer)
    → decide p (layer_rules luid l) ≡ when (same_layer l p.layer) (allowed luid p)
unfolding when
decide-any p luid l = elim (Bool-cases (same_layer l p.layer)) [
  | inl e ↦ rw (e, same_layer-same l p.layer e) (decide-layer_rules p luid)
  | inr e ↦ rw e (decide-other p luid l e)
]

one_layer :
    (l : Layer) (v : Bool)
    → or_else (when (same_layer connect4 l) v) (
        or_else
          (when (same_layer connect6 l) v)
          (or_else (when (same_layer accept4 l) v) (or_else (when (same_layer accept6 l) v) none)))
      ≡ some v
unfolding or_else when same_layer
one_layer connect4 v = refl
one_layer connect6 v = refl
one_layer accept4 v = refl
one_layer accept6 v = refl

-- The filters for the interface `luid` permit a packet of any layer exactly when it is loopback,
-- or it goes through that interface and the interface is given, or it is not DNS and is of the
-- core, of the engine, a DHCP exchange of the DHCP client, or IPv6 neighbour discovery with a
-- link-local or multicast address; every other packet is blocked.
pub policy-allowed : (luid : ℕ) (p : Packet) → decide p (policy luid) ≡ some (allowed luid p)
unfolding policy concat
policy-allowed luid p =
    decide-both p (layer_rules luid connect4) _ (decide-any p luid connect4) (
      decide-both p (layer_rules luid connect6) _ (decide-any p luid connect6) (
        decide-both p (layer_rules luid accept4) _ (decide-any p luid accept4) (
          decide-both p (layer_rules luid accept6) [] (decide-any p luid accept6)
            (decide-nothing p))))
    ∙ one_layer p.layer (allowed luid p)
