-- ===== src/DnsWire/Response/Records/Filed.antt =====
-- What the tables of `ParseResponse` of core/dnswire/dnswire.go hold.
use tenebra.Prelude.{
  ℕ, zero, suc, ◌+◌, ◌/◌, ◌%◌, not, ◌≡◌, ◌⊎◌, refl, sym, ap, ◌∙◌, inl, inr, Bool, true, false,
  Bool-cases, some, some_inj, [], ◌∷◌, ◌++◌, Text, text_eq, text_eq_iff, lookup, lookup-insert,
  insert, length, ltb, ◌==◌, ==_iff, In, In-append_cases, if◌then◌else◌, arith,
}
use tenebra.DnsWire.Result.{Result, DnsError, ok, err, bind-eq-ok, slice, u16_at}
use tenebra.DnsWire.Name.{read_name}
use tenebra.DnsWire.Response.{
  Ip, Tables, addresses, or_nil, add_ip, skip_questions, address_record, record_data, record_body,
  record_header, read_record, read_answers, check_flags, read_header, read_tables, type_a,
  type_aaaa, type_cname,
}
use tenebra.DnsWire.Response.Records.{
  Answer, StandsAt, AmongFrom, Questions, InReply, Gives, Aliases,
}

-- Every entry of the tables is that of a record that `K` holds of.
pub record IsFiled (msg : Text) (K : Answer → Type 0) (t : Tables) : Type 0 where
  pub given :
      (name : Text) (ip : Ip)
      → In ip (addresses t.ips name)
      → (a : Answer) × K a × Gives msg a name ip
  pub aliased :
      (name target : Text)
      → lookup name t.cnames ≡ some target
      → (a : Answer) × K a × Aliases msg a name target

-- A guard that returns an error was not taken.
unless_ok :
    {A : Type 0} (b : Bool) (e : DnsError) (m : Result A) (y : A)
    → (if b then err e else m) ≡ ok y
    → (b ≡ false) × (m ≡ ok y)
unless_ok true e m y h = cc
unless_ok false e m y h = (refl, h)

ok_inj : {A : Type 0} {x y : A} → ok x ≡ ok y → x ≡ y
ok_inj e = cc

addresses-add_ip :
    (t : Tables) (owner name : Text) (ip : Ip)
    → addresses (add_ip t owner ip).ips name
      ≡ (if text_eq owner name then addresses t.ips owner ++ ip ∷ [] else addresses t.ips name)
unfolding addresses add_ip
addresses-add_ip t owner name ip =
    rw (lookup-insert owner name (or_nil (lookup owner t.ips) ++ ip ∷ []) t.ips)
      (elim (Bool-cases (text_eq owner name)) [ inl y ↦ rw y refl | inr n ↦ rw n refl ])

module _ (msg : Text) (K : Answer → Type 0) where
  add_ip-IsFiled :
      (t : Tables) (a : Answer) (ip : Ip)
      → IsFiled msg K t
      → K a
      → Gives msg a a.owner ip
      → IsFiled msg K (add_ip t a.owner ip)
  add_ip-IsFiled t a ip f k g = record {
    given = λ name q i. elim (Bool-cases (text_eq a.owner name)) [
      | inl y ↦
          let same = (text_eq_iff a.owner name).0 y in
          elim (In-append_cases q (addresses t.ips a.owner) (ip ∷ [])
            (rw (addresses-add_ip t a.owner name ip, y) at i)) [
              | inl j ↦ f.given name q (rw same at j)
              | inr (inl e) ↦ (
                a,
                k,
                record { owner = same; family = g.family; data_is = g.data_is ∙ ap ok (sym e) },
              )
              | inr (inr z) ↦ absurd z
            ]
      | inr n ↦ f.given name q (rw (addresses-add_ip t a.owner name ip, n) at i)
    ];
    aliased = unfold add_ip in f.aliased;
  }

  insert-IsFiled :
      (t : Tables) (a : Answer) (target : Text)
      → IsFiled msg K t
      → K a
      → Aliases msg a a.owner target
      → IsFiled msg K (record t { cnames = insert a.owner target t.cnames })
  insert-IsFiled t a target f k g = record {
    given = f.given;
    aliased = λ name u e. elim (Bool-cases (text_eq a.owner name)) [
      | inl y ↦
          let same = (text_eq_iff a.owner name).0 y in
          let hit = some_inj (rw (lookup-insert a.owner name target t.cnames, y) at e) in
          (
            a,
            k,
            record {
              owner = same;
              rtype = g.rtype;
              end = g.end;
              data_is = g.data_is ∙ ap (λ x. ok (x, g.end)) hit;
            },
          )
      | inr n ↦ f.aliased name u (rw (lookup-insert a.owner name target t.cnames, n) at e)
    ];
  }

  address_record-IsFiled :
      (t t' : Tables) (a : Answer) (size : ℕ)
      → ((a.rtype ≡ 1) × (size ≡ 4)) ⊎ ((a.rtype ≡ 28) × (size ≡ 16))
      → IsFiled msg K t
      → K a
      → address_record t a.owner size msg a.start a.size ≡ ok t'
      → IsFiled msg K t'
  unfolding address_record
  address_record-IsFiled t t' a size family f k e = elim (Bool-cases (a.size == size)) [
    | inl y ↦
        let same = (==_iff a.size size).0 y in
        let (ip, d, r) = bind-eq-ok (slice msg a.start (a.start + a.size)) _ (rw y at e) in
        rw⁻¹ (ok_inj r) (
          add_ip-IsFiled t a ip f k (record { owner = refl; family = rw same family; data_is = d }))
    | inr n ↦ rw⁻¹ (ok_inj (rw n at e)) f
  ]

  record_data-IsFiled :
      (t t' : Tables) (a : Answer)
      → IsFiled msg K t
      → K a
      → record_data t a.owner a.rtype msg a.start a.size ≡ ok t'
      → IsFiled msg K t'
  unfolding record_data
  record_data-IsFiled t t' a f k e = elim (Bool-cases (a.rtype == type_a)) [
    | inl y ↦
        address_record-IsFiled t t' a 4 (inl ((==_iff a.rtype type_a).0 y, refl)) f k (rw y at e)
    | inr n ↦ elim (Bool-cases (a.rtype == type_aaaa)) [
      | inl y ↦
          address_record-IsFiled t t' a 16 (inr ((==_iff a.rtype type_aaaa).0 y, refl)) f k
            (rw (n, y) at e)
      | inr n2 ↦ elim (Bool-cases (a.rtype == type_cname)) [
        | inl y ↦
            let (r, d, q) = bind-eq-ok (read_name msg a.start) _ (rw (n, n2, y) at e) in
            rw⁻¹ (ok_inj q) (
              insert-IsFiled t a r.0 f k (record {
                owner = refl;
                rtype = (==_iff a.rtype type_cname).0 y;
                end = r.1;
                data_is = d;
              }))
        | inr n3 ↦ rw⁻¹ (ok_inj (rw (n, n2, n3) at e)) f
      ]
    ]
  ]

-- What `read_record` has read.
pub record Read (msg : Text) (off : ℕ) (t : Tables) (r : ℕ × Tables) : Type 0 where
  pub answer : Answer
  pub stands : StandsAt msg off answer
  pub end : answer.start + answer.size ≡ r.0
  pub filed : record_data t answer.owner answer.rtype msg answer.start answer.size ≡ ok r.1

read_record-Read :
    (msg : Text) (off : ℕ) (t : Tables) (r : ℕ × Tables)
    → read_record t msg off ≡ ok r
    → Read msg off t r
unfolding read_record record_header record_body
read_record-Read msg off t r e =
    let (n, named, e1) = bind-eq-ok (read_name msg off) _ e in
    let (_, e2) = unless_ok (ltb (length msg) (n.1 + 10)) _ _ r e1 in
    let (rtype, typed, e3) = bind-eq-ok (u16_at msg n.1) _ e2 in
    let (size, sized, e4) = bind-eq-ok (u16_at msg (n.1 + 8)) _ e3 in
    let (fits, e5) = unless_ok (ltb (length msg) (n.1 + 10 + size)) _ _ r e4 in
    let (t', data_read, e6) = bind-eq-ok (record_data t n.0 rtype msg (n.1 + 10) size) _ e5 in
    let same = ok_inj e6 in
    record {
      answer = record { owner = n.0; rtype = rtype; start = n.1 + 10; size = size };
      stands = record {
        next = n.1;
        name = named;
        rtype = typed;
        size = sized;
        start = refl;
        fits = ground arith;
      };
      end = ap (λ (x : ℕ × Tables). x.0) same;
      filed = data_read ∙ ap (λ (x : ℕ × Tables). ok x.1) same;
    }

read_answers-IsFiled :
    (n : ℕ) (msg : Text) (off : ℕ) (t t' : Tables) (K : Answer → Type 0)
    → ((a : Answer) → AmongFrom msg n off a → K a)
    → IsFiled msg K t
    → read_answers n msg off t ≡ ok t'
    → IsFiled msg K t'
unfolding read_answers
read_answers-IsFiled zero msg off t t' K all f e = rw⁻¹ (ok_inj e) f
read_answers-IsFiled (suc n) msg off t t' K all f e =
    let (r, read, rest) = bind-eq-ok (read_record t msg off) _ e in
    let x = read_record-Read msg off t r read in
    read_answers-IsFiled n msg r.0 r.1 t' K (λ a i. all a (AmongFrom.later x.stands (rw x.end i)))
      (record_data-IsFiled msg K t r.1 x.answer f (all x.answer (AmongFrom.first x.stands)) x.filed)
      rest

skip_questions-Questions :
    (n : ℕ) (msg : Text) (off end : ℕ) → skip_questions n msg off ≡ ok end → Questions msg n off end
unfolding skip_questions
skip_questions-Questions zero msg off end e = rw⁻¹ (ok_inj e) Questions.no_more
skip_questions-Questions (suc n) msg off end e =
    let (r, named, rest) = bind-eq-ok (read_name msg off) _ e in
    elim (Bool-cases (ltb (length msg) (r.1 + 4))) [
      | inl y ↦ cc (rw y at rest)
      | inr n0 ↦
          Questions.question named (skip_questions-Questions n msg (r.1 + 4) end (rw n0 at rest))
    ]

read_header-counts :
    (msg : Text) (c : ℕ × ℕ)
    → read_header msg ≡ ok c
    → (u16_at msg 4 ≡ ok c.0) × (u16_at msg 6 ≡ ok c.1)
unfolding read_header check_flags
read_header-counts msg c e =
    let (_, e1) = unless_ok (ltb (length msg) 12) _ _ c e in
    let (flags, _, e2) = bind-eq-ok (u16_at msg 2) _ e1 in
    let (qd, q, e3) = bind-eq-ok (u16_at msg 4) _ e2 in
    let (an, a, e4) = bind-eq-ok (u16_at msg 6) _ e3 in
    let (_, e5) = unless_ok (flags / 32768 % 2 == 0) _ _ c e4 in
    let (_, e6) = unless_ok (not (flags % 16 == 0)) _ _ c e5 in
    let same = ok_inj e6 in
    (q ∙ ap (λ (x : ℕ × ℕ). ok x.0) same, a ∙ ap (λ (x : ℕ × ℕ). ok x.1) same)

-- Every entry of the tables of a reply is that of one of its records.
pub read_tables-IsFiled :
    (msg : Text) (t : Tables) → read_tables msg ≡ ok t → IsFiled msg (InReply msg) t
unfolding read_tables
read_tables-IsFiled msg t e =
    let (c, header, e1) = bind-eq-ok (read_header msg) _ e in
    let (off, skipped, e2) = bind-eq-ok (skip_questions c.0 msg 12) _ e1 in
    let counts = read_header-counts msg c header in
    read_answers-IsFiled c.1 msg off (record { cnames = []; ips = [] }) t (InReply msg)
      (λ a i. record {
        questions = c.0;
        answers = c.1;
        behind = off;
        questions_at = counts.0;
        answers_at = counts.1;
        skipped = skip_questions-Questions c.0 msg 12 off skipped;
        among = i;
      })
      (record {
        given = λ name ip i. absurd (unfold addresses lookup in i);
        aliased = λ name target q. absurd (unfold lookup in cc q);
      })
      e2
