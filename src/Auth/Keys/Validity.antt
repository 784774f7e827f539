-- ===== src/Auth/Keys/Validity.antt =====
-- When ValidateKey accepts a key.
use tradecast.Prelude.{
  ◌≡◌, ◌≢◌, ◌↔◌, refl, ap, false, true, Bool, none, some, Text, text_eq, Result, ok, err, find,
  find-update_where, Option, arith, Option-cases, inl, inr, ◌==◌, ==_iff, ◌∙◌, if◌then◌else◌,
}
use tradecast.Types.{Nanos, CachedKey}
use tradecast.Config.{AuthConfig}
use tradecast.Platform.{Platform}
use tradecast.World.{World}
use tradecast.Cache.{Lru, live}
use tradecast.Cache.Keys.{get_api_key_cache, set_api_key_cache}
use tradecast.Store.{ApiKeyStatus, active, revoked, suspended, KeyRow, ApiKey, Db, StoreError}
use tradecast.Store.Keys.{get_api_key_by_hash, scan_api_key, set_api_key_status}
use tradecast.Auth.Keys.{
  Faults, cached_key, accept_key, validate_row, validate_key, is_active, is_rotated_out, to_cached,
}

-- No entry of the key cache decodes, now or later.
abbrev pub IsOpaque : Lru → Type 0
IsOpaque c = (now : Nanos) (hash : Text) → cached_key (ok (live now (c.api_keys hash))) ≡ none

-- the row that a key's hash selects
abbrev pub row_of : Platform → Text → Db → Option KeyRow
row_of p plaintext db = find (λ r. text_eq r.key_hash (p.sha256_hex plaintext)) db.api_keys

-- A key is in order: its status is active, and the time of its rotation is not past.
abbrev pub IsUsable : Nanos → KeyRow → Type 0
IsUsable now r = (r.status ≡ active) × (is_rotated_out now r.rotate_at ≡ false)

get-opaque :
    (fault : Bool) (now : Nanos) (hash : Text) (c : Lru)
    → IsOpaque c
    → cached_key (get_api_key_cache fault now hash c) ≡ none
unfolding get_api_key_cache
get-opaque true now hash c h = refl
get-opaque false now hash c h = h now hash

is_active_iff : (s : ApiKeyStatus) → (is_active s ≡ true) ↔ (s ≡ active)
unfolding text_eq
is_active_iff active = ground arith
is_active_iff revoked = ground arith
is_active_iff suspended = ground arith

module _ (p : Platform) (f : Faults) (cfg : AuthConfig) (now : Nanos) (plaintext : Text) where
  validate_key-row :
      (w : World)
      → IsOpaque w.lru
      → validate_key p f cfg now plaintext w
        ≡ validate_row p f cfg now
            (p.sha256_hex plaintext)
            w
            (get_api_key_by_hash f.db_get (p.sha256_hex plaintext) w.db)
  unfolding validate_key
  validate_key-row w h =
      rw (get-opaque f.cache_get now (p.sha256_hex plaintext) w.lru h, validate_key)

  accept_key-IsOpaque :
      (hash : Text) (key : ApiKey) (w : World)
      → IsOpaque w.lru
      → IsOpaque (accept_key p f cfg now hash key w).1.lru
  unfolding accept_key set_api_key_cache
  accept_key-IsOpaque hash key w h later k = ground (arith, h later k)

  validate_row-IsOpaque :
      (hash : Text) (w : World) (r : Result StoreError (Option ApiKey))
      → IsOpaque w.lru
      → IsOpaque (validate_row p f cfg now hash w r).1.lru
  unfolding validate_row
  validate_row-IsOpaque hash w (err e) h = h
  validate_row-IsOpaque hash w (ok none) h = h
  validate_row-IsOpaque hash w (ok (some key)) h = accept_key-IsOpaque hash key w h

  -- ValidateKey keeps the key cache without an entry that decodes: what it writes there is the
  -- JSON of a byte slice.
  pub validate_key-IsOpaque :
      (w : World) → IsOpaque w.lru → IsOpaque (validate_key p f cfg now plaintext w).1.lru
  validate_key-IsOpaque w h = rw (validate_key-row w h) (validate_row-IsOpaque _ w _ h)

  validate_key-missing :
      (w : World)
      → IsOpaque w.lru
      → f.db_get ≡ false
      → row_of p plaintext w.db ≡ none
      → (validate_key p f cfg now plaintext w).0 ≡ ok none
  unfolding validate_row get_api_key_by_hash
  validate_key-missing w h up e = rw (validate_key-row w h, up, e, validate_row)

  pub validate_key-found :
      (w : World) (r : KeyRow)
      → IsOpaque w.lru
      → f.db_get ≡ false
      → row_of p plaintext w.db ≡ some r
      → (validate_key p f cfg now plaintext w).0
        ≡ ok (accept_key p f cfg now (p.sha256_hex plaintext) (scan_api_key r) w).0
  unfolding validate_row get_api_key_by_hash
  validate_key-found w r h up e = rw (validate_key-row w h) (simp (up, e) refl)

  accept_key_iff :
      (hash : Text) (r : KeyRow) (ck : CachedKey) (w : World)
      → ((accept_key p f cfg now hash (scan_api_key r) w).0 ≡ some ck)
        ↔ (IsUsable now r × (to_cached p (scan_api_key r) ≡ ck))
  unfolding accept_key scan_api_key
  accept_key_iff hash r ck w = ground (arith, is_active_iff r.status)

  pub accept_key-active :
      (hash : Text) (r : KeyRow) (w : World)
      → r.status ≡ active
      → (accept_key p f cfg now hash (scan_api_key r) w).0
        ≡ (if is_rotated_out now r.rotate_at then none else some (to_cached p (scan_api_key r)))
  unfolding accept_key scan_api_key
  accept_key-active hash r w live = ground (arith, is_active_iff r.status, live)

  accept_key-refused :
      (hash : Text) (r : KeyRow) (w : World)
      → r.status ≢ active
      → (accept_key p f cfg now hash (scan_api_key r) w).0 ≡ none
  unfolding accept_key scan_api_key
  accept_key-refused hash r w other = ground (arith, is_active_iff r.status, other)

  -- Where no cached key decodes and the query does not fail, ValidateKey answers with a key exactly
  -- if the row that the hash of the plaintext selects is there, is active and is not rotated out,
  -- and the key is made of that row.
  pub validate_key_iff :
      (w : World) (ck : CachedKey)
      → IsOpaque w.lru
      → f.db_get ≡ false
      → ((validate_key p f cfg now plaintext w).0 ≡ ok (some ck)) ↔ (
          (r : KeyRow) × (row_of p plaintext w.db ≡ some r)
          × IsUsable now r
          × (to_cached p (scan_api_key r) ≡ ck))
  validate_key_iff w ck h up = elim (Option-cases (row_of p plaintext w.db)) [
    | inl e ↦ (λ q. cc (q, validate_key-missing w h up e), λ (r, found, _, _). cc (e, found))
    | inr (r, e) ↦ (
      λ q.
          let (usable, same) =
            (accept_key_iff (p.sha256_hex plaintext) r ck w).0
              (cc (q, validate_key-found w r h up e)) in
          (r, e, usable, same),
      λ (r', found, usable, same). cc (
        validate_key-found w r' h up found,
        (accept_key_iff (p.sha256_hex plaintext) r' ck w).1 (usable, same),
      ),
    )
  ]

  -- A key whose row is given another status than active is refused by the next ValidateKey, even
  -- though no entry of the cache is deleted, if no cached key decodes and no statement fails.
  pub revoked_at_once :
      (w : World) (r : KeyRow) (status : ApiKeyStatus)
      → IsOpaque w.lru
      → f.db_get ≡ false
      → row_of p plaintext w.db ≡ some r
      → status ≢ active
      → let db = (set_api_key_status false r.id status w.db).1 in
        (validate_key p f cfg now plaintext (record w { db = db })).0 ≡ ok none
  unfolding set_api_key_status
  revoked_at_once w r status h up e other =
      validate_key-found _ (record r { status = status }) h up selected
      ∙ ap ok (accept_key-refused (p.sha256_hex plaintext) (record r { status = status }) _ other)
    where
      selected :
          row_of p plaintext (set_api_key_status false r.id status w.db).1
          ≡ some (record r { status = status })
      selected =
          find-update_where (λ x. text_eq x.key_hash (p.sha256_hex plaintext)) (λ x. x.id == r.id)
            (λ x. record x { status = status }) w.db.api_keys (λ x. refl)
          ∙ rw (e, (==_iff r.id r.id).1 refl)
