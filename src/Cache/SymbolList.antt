-- ===== src/Cache/SymbolList.antt =====
-- The cached list of watched symbols of internal/cache/cache.go.
use tradecast.Prelude.{
  ◌+◌, Bool, none, some, List, Text, Option, Result, ok, err, Fault, unavailable, if◌then◌else◌,
}
use tradecast.Types.{Nanos}
use tradecast.Cache.{Critical, live}

unfoldable pub set_symbol_list : Bool → Nanos → List Text → Nanos → Critical → Critical
set_symbol_list fault now symbols ttl c =
    if fault then c else record c { symbol_list = some (symbols, now + ttl) }

-- `ok none`: redis.Nil
unfoldable pub get_symbol_list : Bool → Nanos → Critical → Result Fault (Option (List Text))
get_symbol_list fault now c = if fault then err unavailable else ok (live now c.symbol_list)

unfoldable pub invalidate_symbol_cache : Bool → Critical → Critical
invalidate_symbol_cache fault c = if fault then c else record c { symbol_list = none }

unfoldable pub invalidate_symbol_list : Bool → Critical → Critical
unfolding invalidate_symbol_cache
invalidate_symbol_list fault c = invalidate_symbol_cache fault c
