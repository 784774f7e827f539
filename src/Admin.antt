-- ===== src/Admin.antt =====
-- internal/admin/admin.go: the admin's handlers. A handler takes which of its calls fail, what it
-- reads of the outside and its request, and returns its reply with the world after it. The children
-- are the handlers by subject.
pub mod Session
pub mod Keys
pub mod Machines
pub mod Subscribers
pub mod Symbols
pub mod Reports
mod Tests
use tradecast.Prelude.{
  ℕ, ℤ, pos, ltb_ℤ, Bool, false, Option, none, some, Text, codes, Result, ok, err,
}
use tradecast.Types.{Uuid}
use tradecast.World.{World}
use tradecast.Store.{StoreError, Db}

-- What a handler writes: a status with a value or with a message. A nil pointer that it follows
-- makes it panic.
pub data Reply (A : Type 0) : Type 0 where
  replied : ℕ → A → Reply A
  failed : ℕ → Text → Reply A
  panicked : Reply A

-- Which of a handler's calls fail: the query before its statement, the statement, the query after
-- it, and the call to Redis.
pub record Faults : Type 0 where
  pub read : Bool
  pub write : Bool
  pub read_back : Bool
  pub cache : Bool

-- `*max < least`, where nil is no limit
abbrev pub is_below : ℤ → Option ℤ → Bool
is_below least none = false
is_below least (some m) = ltb_ℤ m least

-- the reply to a query: its value, or the message of an error
abbrev pub listed : {A : Type 0} → Text → Result StoreError A → Reply A
listed message (ok a) = replied 200 a
listed message (err _) = failed 500 message

-- what `id, err := uuid.Parse(…)` does to a handler
abbrev pub with_id :
    {A : Type 0} → Option Uuid → Text → World → (Uuid → Reply A × World) → Reply A × World
with_id none message w handler = (failed 400 message, w)
with_id (some id) message w handler = handler id

-- what the decoding of the body does to a handler
abbrev pub with_body : {A B : Type 0} → Option B → World → (B → Reply A × World) → Reply A × World
with_body none w handler = (failed 400 (codes "invalid payload"), w)
with_body (some b) w handler = handler b
