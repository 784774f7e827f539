-- ===== src/Auth/Keys.antt =====
-- ValidateKey and HasScope of internal/auth/auth.go.
pub mod Validity
use tradecast.Prelude.{
  Bool, Option, none, some, List, Text, codes, text_eq, Json, doc, unmarshal, Result, ok, err,
  Fault, ltb, any, if◌then◌else◌,
}
use tradecast.Types.{Nanos, CachedKey}
use tradecast.Config.{AuthConfig}
use tradecast.Platform.{Platform}
use tradecast.World.{World}
use tradecast.Cache.Keys.{of_bytes, get_api_key_cache, set_api_key_cache}
use tradecast.Store.{ApiKeyStatus, active, revoked, suspended, ApiKey, StoreError}
use tradecast.Store.Keys.{get_api_key_by_hash, touch_api_key_last_used}

abbrev pub status_text : ApiKeyStatus → Text
status_text active = codes "active"
status_text revoked = codes "revoked"
status_text suspended = codes "suspended"

-- Which calls of ValidateKey fail.
pub record Faults : Type 0 where
  pub cache_get : Bool
  pub db_get : Bool
  pub cache_set : Bool
  pub touch : Bool

-- the entry of the cache, if it is there and decodes
abbrev pub cached_key : Result Fault (Option (Json CachedKey)) → Option CachedKey
cached_key (err e) = none
cached_key (ok none) = none
cached_key (ok (some raw)) = unmarshal raw

-- key.Status == APIKeyActive, as a test
abbrev pub is_active : ApiKeyStatus → Bool
is_active s = text_eq (status_text s) (codes "active")

-- `key.RotateAt != nil && time.Now().After(*key.RotateAt)`
abbrev pub is_rotated_out : Nanos → Option Nanos → Bool
is_rotated_out now none = Bool.false
is_rotated_out now (some t) = ltb t now

abbrev pub to_cached : Platform → ApiKey → CachedKey
to_cached p key = record {
  id = p.uuid_text key.id;
  owner = key.owner;
  scopes = key.scopes;
  status = status_text key.status;
}

-- what ValidateKey does with the row of a key: the JSON bytes of the key go to SetAPIKeyCache
unfoldable pub accept_key :
    Platform → Faults → AuthConfig → Nanos → Text → ApiKey → World → Option CachedKey × World
accept_key p f cfg now hash key w =
    let ck = to_cached p key in
    if is_active key.status
    then (if is_rotated_out now key.rotate_at then (none, w) else (
      some ck,
      record w {
        lru = set_api_key_cache f.cache_set now hash (of_bytes (doc ck)) cfg.key_cache_ttl w.lru;
        db = touch_api_key_last_used f.touch now key.id w.db;
      },
    ))
    else (none, w)

-- what follows GetAPIKeyByHash
unfoldable pub validate_row :
    Platform
    → Faults
    → AuthConfig
    → Nanos
    → Text
    → World
    → Result StoreError (Option ApiKey)
    → Result StoreError (Option CachedKey) × World
validate_row p f cfg now hash w (err e) = (err e, w)
validate_row p f cfg now hash w (ok none) = (ok none, w)
validate_row p f cfg now hash w (ok (some key)) =
    let (ck, w') = accept_key p f cfg now hash key w in (ok ck, w')

-- `ok none`: the key is not valid
unfoldable pub validate_key :
    Platform
    → Faults
    → AuthConfig
    → Nanos
    → Text
    → World
    → Result StoreError (Option CachedKey) × World
validate_key p f cfg now plaintext w =
    let hash = p.sha256_hex plaintext in
    elim (cached_key (get_api_key_cache f.cache_get now hash w.lru)) [
      | some ck ↦ (ok (if text_eq ck.status (codes "active") then some ck else none), w)
      | none ↦ validate_row p f cfg now hash w (get_api_key_by_hash f.db_get hash w.db)
    ]

unfoldable pub has_scope : CachedKey → Text → Bool
has_scope key scope = any (λ sc. text_eq sc scope) key.scopes
