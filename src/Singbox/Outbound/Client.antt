-- ===== src/Singbox/Outbound/Client.antt =====
-- The REALITY block of a TLS object of core/singbox/outbound.go.
use tenebra.Prelude.{
  true, false, Bool-cases, Option, none, some, some_inj, Text, codes, text_eq, ◌≡◌, ◌⊎◌, refl, sym,
  ap, ◌∙◌, inl, inr,
}
use tenebra.Prelude.Json.{
  Json, text, object, Object, flag, field, end, get_field, put_some, get_field-put_some,
  get_field-put_some_self,
}
use tenebra.Model.{Tls, Reality}
use tenebra.Singbox.Validate.{is_empty}
use tenebra.Singbox.Outbound.{
  given, sub_object, client_object, reality_object, fingerprint_of, utls_object, enabled_tls,
  tls_object,
}

-- A client for REALITY: with a public key, and with a fingerprint that the engine imitates.
pub record IsClient (o : Object) (r : Json) : Type 0 where
  pub key :
      (k : Text) × (is_empty k ≡ false)
      × ((b : Object) × (r ≡ object b) × (get_field (codes "public_key") b ≡ some (text k)))
  pub fingerprint :
      (f : Text) × (is_empty f ≡ false) × (get_field (codes "utls") o ≡ some (utls_object f))

client_object-key :
    (r : Reality) → get_field (codes "public_key") (client_object r) ≡ some (text r.public_key)
unfolding client_object text_eq
client_object-key r =
    get_field-put_some (codes "short_id") (codes "public_key") (given r.short_id) _ refl
    ∙ unfold get_field in refl

reality_cases :
    (r : Option Reality)
    → (reality_object r ≡ none)
      ⊎ ((c : Reality) × (reality_object r ≡ some (client_object c))
          × (is_empty c.public_key ≡ false))
unfolding reality_object
reality_cases none = inl refl
reality_cases (some r) = elim (Bool-cases (is_empty r.public_key)) [
  | inl e ↦ rw e (inl refl)
  | inr f ↦ inr (r, rw f refl, f)
]

-- Behind the fingerprint and the block nothing writes to either.
utls_lem :
    (t : Tls)
    → is_empty (fingerprint_of t) ≡ false
    → get_field (codes "utls") (enabled_tls t) ≡ some (utls_object (fingerprint_of t))
unfolding enabled_tls text_eq
utls_lem t f =
    get_field-put_some (codes "fragment_fallback_delay") (codes "utls") _ _ refl
    ∙ get_field-put_some (codes "fragment") (codes "utls") _ _ refl
    ∙ get_field-put_some (codes "reality") (codes "utls") _ _ refl
    ∙ rw f (get_field-put_some_self (codes "utls") (utls_object (fingerprint_of t)) _)

reality_lem :
    (t : Tls) (b : Object)
    → reality_object t.reality ≡ some b
    → get_field (codes "reality") (enabled_tls t) ≡ some (object b)
unfolding enabled_tls text_eq
reality_lem t b e =
    get_field-put_some (codes "fragment_fallback_delay") (codes "reality") _ _ refl
    ∙ get_field-put_some (codes "fragment") (codes "reality") _ _ refl
    ∙ rw e (get_field-put_some_self (codes "reality") (object b) _)

get_field-put_sub :
    (k : Text) (b : Option Object) (o : Object)
    → b ≡ none
    → get_field k (put_some k (sub_object b) o) ≡ get_field k o
unfolding put_some
get_field-put_sub k none o e = refl
get_field-put_sub k (some b) o e = absurd (cc)

bare_lem : get_field (codes "reality") (field (codes "enabled") (flag true) end) ≡ none
unfolding get_field text_eq
bare_lem = refl

no_reality_lem :
    (t : Tls) → reality_object t.reality ≡ none → get_field (codes "reality") (enabled_tls t) ≡ none
unfolding enabled_tls text_eq
no_reality_lem t e =
    get_field-put_some (codes "fragment_fallback_delay") (codes "reality") _ _ refl
    ∙ get_field-put_some (codes "fragment") (codes "reality") _ _ refl
    ∙ get_field-put_sub (codes "reality") (reality_object t.reality) _ e
    ∙ get_field-put_some (codes "utls") (codes "reality") _ _ refl
    ∙ get_field-put_some (codes "alpn") (codes "reality") _ _ refl
    ∙ get_field-put_some (codes "insecure") (codes "reality") _ _ refl
    ∙ get_field-put_some (codes "server_name") (codes "reality") _ _ refl
    ∙ bare_lem

fingerprint_of-filled :
    (t : Tls) (b : Object) → reality_object t.reality ≡ some b → is_empty (fingerprint_of t) ≡ false
unfolding fingerprint_of text_eq
fingerprint_of-filled t b e = elim (Bool-cases (is_empty t.fingerprint)) [
  | inl y ↦ rw (y, e) refl
  | inr n ↦ rw n n
]

-- Every TLS object that `tlsObject` renders with a REALITY block has in this block a public key,
-- and beside it a uTLS block with a fingerprint, neither of them empty.
pub tls_object-IsClient :
    (t : Option Tls) (o : Object) (r : Json)
    → tls_object t ≡ some o
    → get_field (codes "reality") o ≡ some r
    → IsClient o r
unfolding tls_object
tls_object-IsClient none o r e g = absurd (cc)
tls_object-IsClient (some t) o r e g = elim (Bool-cases t.enabled) [
  | inr n ↦ absurd (cc (rw n at e))
  | inl y ↦
      let same : enabled_tls t ≡ o = some_inj (rw y at e) in
      elim (reality_cases t.reality) [
        | inl z ↦ absurd (cc (no_reality_lem t z, ap (get_field (codes "reality")) same))
        | inr (c, z, k) ↦
            let there = reality_lem t (client_object c) z in
            let read = some_inj (sym g ∙ sym (ap (get_field (codes "reality")) same) ∙ there) in
            let f = fingerprint_of-filled t (client_object c) z in
            record {
              key = (c.public_key, k, (client_object c, read, client_object-key c));
              fingerprint =
                  (fingerprint_of t, f, sym (ap (get_field (codes "utls")) same) ∙ utls_lem t f);
            }
      ]
]
