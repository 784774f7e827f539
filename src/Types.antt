-- ===== src/Types.antt =====
-- Data that several components exchange: the signal and the job of internal/signal/handler.go,
-- the cached key of internal/auth/auth.go, and identifiers.
use native.Mathlib.Decide.{ℕ_discrete}
use tradecast.Prelude.{ℕ, Option, List, ℤ, Text, Json}

-- uuid.UUID, as its 128-bit number
abbrev pub Uuid : Type 0
Uuid = ℕ

-- An instant or a duration, in nanoseconds; instants count from the year 0.
abbrev pub Nanos : Type 0
Nanos = ℕ

-- Prices and lots, float64 in the code, are taken as decimals: multiples of 10 ^ -8.
pub record InboundSignal : Type 0 where
  pub ticket_id : ℤ
  pub signal_type : Text
  pub symbol : Text
  pub direction : Text
  pub price : ℤ
  pub sl : Option ℤ
  pub tp : Option ℤ
  pub lot : ℤ
  pub timestamp : Nanos

pub record Job : Type 0 where
  pub job_id : Uuid
  pub signal_id : Uuid
  pub signal : InboundSignal
  pub attempts : ℕ
  pub enqueued_at : Nanos

unfoldable pub ℤ-discrete : Discrete ℤ
ℤ-discrete = hlevel ℕ_discrete

unfoldable pub InboundSignal-discrete : Discrete InboundSignal
InboundSignal-discrete = hlevel (ℕ_discrete, ℤ-discrete)

unfoldable pub Job-discrete : Discrete Job
Job-discrete = hlevel (ℕ_discrete, InboundSignal-discrete)

unfoldable pub Json-discrete : Discrete (Json Job)
Json-discrete = hlevel (ℕ_discrete, Job-discrete)

-- auth.CachedKey; `status` is the text of the column
pub record CachedKey : Type 0 where
  pub id : Text
  pub owner : Text
  pub scopes : List Text
  pub status : Text
