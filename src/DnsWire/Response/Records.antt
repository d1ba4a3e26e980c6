-- ===== src/DnsWire/Response/Records.antt =====
-- The records of a reply, as the format of core/dnswire/dnswire.go lays them out: a header with the
-- counts at 4 and 6, the questions from 12 on, and the answers behind them.
pub mod Filed
use tenebra.Prelude.{ℕ, zero, suc, ◌+◌, ◌≤◌, ◌≡◌, ◌⊎◌, Text, length}
use tenebra.DnsWire.Result.{ok, slice, u16_at}
use tenebra.DnsWire.Name.{read_name}
use tenebra.DnsWire.Response.{Ip}

-- A record: its owner, its type, and where its data stands.
pub record Answer : Type 0 where
  pub owner : Text
  pub rtype : ℕ
  pub start : ℕ
  pub size : ℕ

-- The record stands at `off`: its name, ten bytes with the type first and the size last, its data.
pub record StandsAt (msg : Text) (off : ℕ) (a : Answer) : Type 0 where
  pub next : ℕ
  pub name : read_name msg off ≡ ok (a.owner, next)
  pub rtype : u16_at msg next ≡ ok a.rtype
  pub size : u16_at msg (next + 8) ≡ ok a.size
  pub start : a.start ≡ next + 10
  pub fits : a.start + a.size ≤ length msg

-- The record is one of the `n` that stand one behind the other from `off` on.
pub data AmongFrom (msg : Text) : ℕ → ℕ → Answer → Type 0 where
  first : {n off : ℕ} {a : Answer} → StandsAt msg off a → AmongFrom msg (suc n) off a
  later :
      {n off : ℕ} {a b : Answer}
      → StandsAt msg off b
      → AmongFrom msg n (b.start + b.size) a
      → AmongFrom msg (suc n) off a

-- `n` questions, each a name and four bytes, lie between two offsets.
pub data Questions (msg : Text) : ℕ → ℕ → ℕ → Type 0 where
  no_more : {off : ℕ} → Questions msg zero off off
  question :
      {n off next end : ℕ} {name : Text}
      → read_name msg off ≡ ok (name, next)
      → Questions msg n (next + 4) end
      → Questions msg (suc n) off end

-- The record is one of the answers of the reply.
pub record InReply (msg : Text) (a : Answer) : Type 0 where
  pub questions : ℕ
  pub answers : ℕ
  pub behind : ℕ
  pub questions_at : u16_at msg 4 ≡ ok questions
  pub answers_at : u16_at msg 6 ≡ ok answers
  pub skipped : Questions msg questions 12 behind
  pub among : AmongFrom msg answers behind a

-- The record gives its owner an IPv4 or IPv6 address, which is its data.
pub record Gives (msg : Text) (a : Answer) (name : Text) (ip : Ip) : Type 0 where
  pub owner : a.owner ≡ name
  pub family : ((a.rtype ≡ 1) × (a.size ≡ 4)) ⊎ ((a.rtype ≡ 28) × (a.size ≡ 16))
  pub data_is : slice msg a.start (a.start + a.size) ≡ ok ip

-- The record is a CNAME of its owner for a name, which is its data.
pub record Aliases (msg : Text) (a : Answer) (name target : Text) : Type 0 where
  pub owner : a.owner ≡ name
  pub rtype : a.rtype ≡ 5
  pub end : ℕ
  pub data_is : read_name msg a.start ≡ ok (target, end)
