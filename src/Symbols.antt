-- ===== src/Symbols.antt =====
-- internal/symbols/manager.go: which symbols the worker consumes. Go's maps are read here as lists
-- of their keys; the order in which Go walks a map is not kept.
pub mod Sync
pub mod Watched
mod Tests
use tradecast.Prelude.{
  Bool, false, true, Option, none, some, List, [], ◌∷◌, Text, text_eq, Result, ok, err, Fault, any,
  select, if◌then◌else◌,
}
use tradecast.Types.{Nanos}
use tradecast.World.{World}
use tradecast.Store.{StoreError}
use tradecast.Store.Symbols.{list_active_symbols}
use tradecast.Cache.SymbolList.{get_symbol_list, set_symbol_list}
use tradecast.Consumer.{add_symbol}

-- cacheTTL: five minutes
abbrev pub cache_ttl : Nanos
cache_ttl = 300_000_000_000

-- `running`: the symbols that have a goroutine, one entry for each. `symbols`: those that the
-- consumer has been told of.
pub record Manager : Type 0 where
  pub running : List Text
  pub symbols : List Text

-- Which calls of load fail.
pub record Faults : Type 0 where
  pub cache_get : Bool
  pub list : Bool
  pub cache_set : Bool

-- an error of the cache, and an entry that is not there, read as nil
abbrev pub cached_symbols : Result Fault (Option (List Text)) → List Text
cached_symbols (err e) = []
cached_symbols (ok none) = []
cached_symbols (ok (some symbols)) = symbols

-- what follows ListActiveSymbols
unfoldable pub cache_loaded :
    Faults → Nanos → World → Result StoreError (List Text) → Result StoreError (List Text) × World
cache_loaded f now w (err e) = (err e, w)
cache_loaded f now w (ok symbols) =
    let critical = set_symbol_list f.cache_set now symbols cache_ttl w.critical in
    (ok symbols, record w { critical = critical })

-- what follows the read of the cache
unfoldable pub load_cached :
    (List Text → List Text)
    → Faults
    → Nanos
    → World
    → List Text
    → Result StoreError (List Text) × World
load_cached order f now w [] = cache_loaded f now w (list_active_symbols order f.list w.db)
load_cached order f now w (s ∷ ss) = (ok (s ∷ ss), w)

-- `order` is the collation of ORDER BY symbol.
unfoldable pub load :
    (List Text → List Text) → Faults → Nanos → World → Result StoreError (List Text) × World
load order f now w =
    load_cached order f now w (cached_symbols (get_symbol_list f.cache_get now w.critical))

abbrev pub has : Text → List Text → Bool
has sym symbols = any (text_eq sym) symbols

unfoldable pub start_locked : Text → Manager → Manager
start_locked sym m =
    if has sym m.running
    then m
    else record m { running = sym ∷ m.running; symbols = add_symbol sym m.symbols }

unfoldable pub start_all : List Text → Manager → Manager
start_all [] m = m
start_all (sym ∷ symbols) m = start_all symbols (start_locked sym m)

unfoldable pub stop_others : List Text → Manager → Manager
stop_others symbols m = record m { running = select (λ sym. has sym symbols) m.running }

-- what follows load in sync
unfoldable pub apply_loaded : Manager → Result StoreError (List Text) → Manager
apply_loaded m (err e) = m
apply_loaded m (ok symbols) = stop_others symbols (start_all symbols m)

unfoldable pub sync : (List Text → List Text) → Faults → Nanos → Manager × World → Manager × World
sync order f now (m, w) = let loaded = load order f now w in (apply_loaded m loaded.0, loaded.1)

-- Start, before its ticker: on an error nothing is started
unfoldable pub start : (List Text → List Text) → Faults → Nanos → Manager × World → Manager × World
start order f now (m, w) =
    let loaded = load order f now w in
    (elim loaded.0 [ err e ↦ m | ok symbols ↦ start_all symbols m ], loaded.1)
