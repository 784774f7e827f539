-- ===== src/Cache/Keys.antt =====
-- The API-key cache, the failure counters and the token blocklist of internal/cache/cache.go.
use tradecast.Prelude.{
  ℕ, suc, ◌+◌, Bool, Option, none, some, Text, Json, doc, quoted, Result, ok, err, Fault,
  unavailable, if◌then◌else◌,
}
use tradecast.Types.{Nanos, CachedKey}
use tradecast.Cache.{Lru, assign, live}
use tradecast.Cache.Signals.{is_marked}

-- The `any` that `SetAPIKeyCache` is given: a key, or bytes that hold one.
pub data KeyPayload : Type 0 where
  of_key : CachedKey → KeyPayload
  of_bytes : Json CachedKey → KeyPayload

-- json.Marshal of such a value
abbrev pub marshal : KeyPayload → Json CachedKey
marshal (of_key k) = doc k
marshal (of_bytes b) = quoted b

unfoldable pub set_api_key_cache : Bool → Nanos → Text → KeyPayload → Nanos → Lru → Lru
set_api_key_cache fault now hash payload ttl c =
    if fault
    then c
    else record c { api_keys = assign hash (some (marshal payload, now + ttl)) c.api_keys }

unfoldable pub get_api_key_cache :
    Bool → Nanos → Text → Lru → Result Fault (Option (Json CachedKey))
get_api_key_cache fault now hash c =
    if fault then err unavailable else ok (live now (c.api_keys hash))

unfoldable pub delete_api_key_cache : Bool → Text → Lru → Lru
delete_api_key_cache fault hash c =
    if fault then c else record c { api_keys = assign hash none c.api_keys }

-- The number in a counter; redis.Nil reads as 0.
abbrev pub or_zero : Option ℕ → ℕ
or_zero none = 0
or_zero (some n) = n

-- INCR and EXPIRE in one pipeline: every failure starts the window anew.
unfoldable pub incr_auth_failure : Bool → Nanos → Text → Nanos → Lru → Result Fault ℕ × Lru
incr_auth_failure fault now ip window c =
    let n = suc (or_zero (live now (c.auth_failures ip))) in
    if fault
    then (err unavailable, c)
    else (ok n, record c { auth_failures = assign ip (some (n, now + window)) c.auth_failures })

unfoldable pub get_auth_failures : Bool → Nanos → Text → Lru → Result Fault ℕ
get_auth_failures fault now ip c =
    if fault then err unavailable else ok (or_zero (live now (c.auth_failures ip)))

unfoldable pub block_jwt : Bool → Nanos → Text → Nanos → Lru → Result Fault Unit × Lru
block_jwt fault now jti ttl c =
    if fault
    then (err unavailable, c)
    else (ok tt, record c { blocked_jwts = assign jti (some (now + ttl)) c.blocked_jwts })

unfoldable pub is_jwt_blocked : Bool → Nanos → Text → Lru → Result Fault Bool
is_jwt_blocked fault now jti c =
    if fault then err unavailable else ok (is_marked now (c.blocked_jwts jti))
