-- ===== src/Cache.antt =====
-- internal/cache/cache.go: the state of the two Redis servers. The children are the operations.
-- An operation takes a Boolean first: whether Redis fails the call. A call that fails changes
-- nothing. Each family of keys (`signal:…:latest`, `dedup:…`, `queue:signal:…`) is a map of its own.
pub mod Queue
pub mod Signals
pub mod SymbolList
pub mod Keys
pub mod Names
mod Tests
pub mod Machines
use tradecast.Prelude.{
  ℕ, List, Option, Bool, none, some, [], ℤ, Text, Json, text_eq, ltb, if◌then◌else◌,
}
use tradecast.Types.{Nanos, InboundSignal, Job, CachedKey}

-- The server with the `noeviction` policy. An instant beside a value is when its key expires.
pub record Critical : Type 0 where
  pub latest : Text → Option (Json InboundSignal)
  pub dedup : ℤ → Text → Option Nanos
  pub queue : Text → List (Json Job)
  pub processing : Text → List (Json Job)
  pub dead_letter : List (Json Job)
  pub symbol_list : Option (List Text × Nanos)

-- The server with the `allkeys-lru` policy.
pub record Lru : Type 0 where
  pub api_keys : Text → Option (Json CachedKey × Nanos)
  pub auth_failures : Text → Option (ℕ × Nanos)
  pub blocked_jwts : Text → Option Nanos
  pub machines : Text → Text → Option (Bool × Nanos)

abbrev pub empty_critical : Critical
empty_critical = record {
  latest = λ s. none;
  dedup = λ t k. none;
  queue = λ s. [];
  processing = λ s. [];
  dead_letter = [];
  symbol_list = none;
}

abbrev pub empty_lru : Lru
empty_lru = record {
  api_keys = λ h. none;
  auth_failures = λ ip. none;
  blocked_jwts = λ j. none;
  machines = λ k a. none;
}

-- SET of one key
abbrev pub assign {ℓ} : {V : Type ℓ} → Text → V → (Text → V) → Text → V
assign k v m j = if text_eq k j then v else m j

-- GET: a key that has expired is gone
abbrev pub live {ℓ} : {V : Type ℓ} → Nanos → Option (V × Nanos) → Option V
live now none = none
live now (some (v, expires)) = if ltb now expires then some v else none
