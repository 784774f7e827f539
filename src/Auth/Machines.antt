-- ===== src/Auth/Machines.antt =====
-- CheckMachineBinding of internal/auth/auth.go.
pub mod Limit
pub mod Race
pub mod Removal
use tradecast.Prelude.{
  ℕ, ℤ, ltb, Bool, true, false, Option, none, some, Text, is_empty, Result, ok, err, Fault,
  if◌then◌else◌,
}
use tradecast.Types.{Uuid, Nanos, CachedKey}
use tradecast.Platform.{Platform}
use tradecast.World.{World}
use tradecast.Cache.Machines.{machine_cache_ttl, get_machine_allowed, set_machine_allowed}
use tradecast.Store.{Db, StoreError, machine_limit, driver, unique_violation, not_found}
use tradecast.Store.Machines.{
  RegisterFaults, count_machines, is_machine_registered, get_max_machines, touch_machine_last_seen,
  register_machine,
}

pub data BindingError : Type 0 where
  invalid_key_id header_required not_authorised limit_reached : BindingError

-- Which calls of CheckMachineBinding fail.
pub record Faults : Type 0 where
  pub count : Bool
  pub cache_get : Bool
  pub cache_set : Bool
  pub registered : Bool
  pub max : Bool
  pub register : RegisterFaults
  pub touch : Bool

-- No account number: allowed only while the key has no machine; fail open.
abbrev without_account : Result StoreError ℕ → Option BindingError
without_account (err e) = none
without_account (ok n) = if ltb 0 n then some header_required else none

-- an error of the cache reads as not found
abbrev pub cached_answer : Result Fault (Option Bool) → Option Bool
cached_answer (err e) = none
cached_answer (ok o) = o

-- an error reads as unlimited
abbrev pub limit_or_none : Result StoreError (Option ℤ) → Option ℤ
limit_or_none (err e) = none
limit_or_none (ok m) = m

-- what follows RegisterMachine: only the limit refuses
unfoldable pub after_register :
    Faults → Nanos → Text → Text → World → Result StoreError Bool × Db → Option BindingError × World
after_register f now key_text account w (ok _, db) =
    let lru = set_machine_allowed f.cache_set now key_text account true machine_cache_ttl w.lru in
    (none, record w { db = db; lru = lru })
after_register f now key_text account w (err machine_limit, db) =
    let lru = set_machine_allowed f.cache_set now key_text account false machine_cache_ttl w.lru in
    (some limit_reached, record w { db = db; lru = lru })
after_register f now key_text account w (err driver, db) = (none, record w { db = db })
after_register f now key_text account w (err unique_violation, db) = (none, record w { db = db })
after_register f now key_text account w (err not_found, db) = (none, record w { db = db })

-- what follows IsMachineRegistered, on a cache miss
unfoldable pub check_database :
    Faults
    → Nanos
    → Uuid
    → Uuid
    → Text
    → Text
    → World
    → Result StoreError Bool
    → Option BindingError × World
check_database f now id key key_text account w (err e) = (none, w)
check_database f now id key key_text account w (ok true) =
    let lru = set_machine_allowed f.cache_set now key_text account true machine_cache_ttl w.lru in
    (none, record w { db = touch_machine_last_seen f.touch now key account w.db; lru = lru })
check_database f now id key key_text account w (ok false) =
    let max = limit_or_none (get_max_machines f.max key w.db) in
    after_register f now key_text account w
      (register_machine f.register id now key account max w.db)

-- what follows the read of the cache
unfoldable pub check_account :
    Faults → Nanos → Uuid → Uuid → Text → Text → World → Option Bool → Option BindingError × World
check_account f now id key key_text account w (some true) =
    (none, record w { db = touch_machine_last_seen f.touch now key account w.db })
check_account f now id key key_text account w (some false) = (some not_authorised, w)
check_account f now id key key_text account w none =
    check_database f now id key key_text account w
      (is_machine_registered f.registered key account w.db)

-- with the key's identifier parsed
unfoldable pub check_key :
    Faults → Nanos → Uuid → Uuid → Text → Text → World → Option BindingError × World
check_key f now id key key_text account w =
    if is_empty account
    then (without_account (count_machines f.count key w.db), w)
    else check_account f now id key key_text account w
        (cached_answer (get_machine_allowed f.cache_get now key_text account w.lru))

-- `none`: allowed. `id` is the identifier that uuid.New gives to a new row.
unfoldable pub check_machine_binding :
    Platform → Faults → Nanos → Uuid → CachedKey → Text → World → Option BindingError × World
check_machine_binding p f now id ck account w = elim (p.parse_uuid ck.id) [
  | none ↦ (some invalid_key_id, w)
  | some key ↦ check_key f now id key ck.id account w
]
