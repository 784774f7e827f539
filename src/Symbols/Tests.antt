-- ===== src/Symbols/Tests.antt =====
-- The theorems on the symbol manager at concrete inputs.
use tradecast.Prelude.{◌≡◌, refl, [], ◌∷◌, List, Text, codes, ok, select, count_where, arith, false}
use tradecast.World.{empty_world}
use tradecast.Store.Symbols.{list_active_symbols, default_symbols}
use tradecast.Cache.SymbolList.{get_symbol_list}
use tradecast.Symbols.{Manager, Faults, load, load_cached, cache_loaded}
use tradecast.Symbols.Sync.{IsSingle}

abbrev sound : Faults
sound = record { cache_get = false; list = false; cache_set = false }

abbrev in_order : List Text → List Text
in_order xs = xs

-- a manager that consumes one symbol, which is no default one
abbrev manager : Manager
manager = record { running = codes "US30" ∷ []; symbols = codes "US30" ∷ [] }

abbrev fresh : Manager
fresh = record { running = []; symbols = [] }

-- With no list in the cache or the table, the default symbols are loaded.
loads_default : (load in_order sound 0 empty_world).0 ≡ ok default_symbols
unfolding load load_cached cache_loaded list_active_symbols get_symbol_list select
loads_default = refl

manager-IsSingle : IsSingle manager
unfolding count_where
manager-IsSingle s = ground arith
