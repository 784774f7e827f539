-- ===== src/Cache/Names.antt =====
-- The names of the keys in the two Redis servers of internal/cache/cache.go. The state keeps a map
-- for each kind of key.
pub mod Distinct
use tradecast.Prelude.{List, ◌∷◌, ◌++◌, Text, codes, ℤ, format_int}

abbrev pub signal_key : Text → Text
signal_key symbol = codes "signal:" ++ (symbol ++ codes ":latest")

abbrev pub dedup_key : ℤ → Text → Text
dedup_key ticket kind = codes "dedup:" ++ (format_int ticket ++ b':' ∷ kind)

abbrev pub queue_key : Text → Text
queue_key symbol = codes "queue:signal:" ++ symbol

abbrev pub processing_key : Text → Text
processing_key symbol = codes "processing:signal:" ++ symbol

abbrev pub dead_letter_key : Text
dead_letter_key = codes "queue:dead_letter"

abbrev pub symbol_cache_key : Text
symbol_cache_key = codes "watched:symbols"

abbrev pub api_key_cache_key : Text → Text
api_key_cache_key hash = codes "apikey:" ++ hash

abbrev pub rate_limit_key : Text → Text
rate_limit_key ip = codes "ratelimit:authfail:" ++ ip

abbrev pub jwt_block_key : Text → Text
jwt_block_key jti = codes "jwt:block:" ++ jti

abbrev pub machine_cache_key : Text → Text → Text
machine_cache_key key account = codes "machine:" ++ (key ++ b':' ∷ account)

-- The entries of the critical server, by the map of the state that holds them.
pub data CriticalKey : Type 0 where
  latest queue processing : Text → CriticalKey
  dedup : ℤ → Text → CriticalKey
  dead_letter symbol_list : CriticalKey

unfoldable pub critical_name : CriticalKey → Text
critical_name (latest symbol) = signal_key symbol
critical_name (queue symbol) = queue_key symbol
critical_name (processing symbol) = processing_key symbol
critical_name (dedup ticket kind) = dedup_key ticket kind
critical_name dead_letter = dead_letter_key
critical_name symbol_list = symbol_cache_key

-- the same of the other server
pub data LruKey : Type 0 where
  api_key auth_failures blocked_jwt : Text → LruKey
  machine : Text → Text → LruKey

unfoldable pub lru_name : LruKey → Text
lru_name (api_key hash) = api_key_cache_key hash
lru_name (auth_failures ip) = rate_limit_key ip
lru_name (blocked_jwt jti) = jwt_block_key jti
lru_name (machine key account) = machine_cache_key key account
