-- ===== src/World.antt =====
-- What the server and the worker share: Postgres and the two Redis servers.
pub mod Frame
use tradecast.Cache.{Critical, Lru, empty_critical, empty_lru}
use tradecast.Store.{Db, empty_db}

pub record World : Type 0 where
  pub db : Db
  pub critical : Critical
  pub lru : Lru

abbrev pub empty_world : World
empty_world = record { db = empty_db; critical = empty_critical; lru = empty_lru }
