-- ===== src/Admin/Keys/Effects.antt =====
-- What the admin's changes of a key mean for the requests that use it.
use tradecast.Prelude.{
  ◌≡◌, ◌≢◌, refl, ap, subst, true, false, Bool, none, some, Text, codes, Json, unmarshal, Result,
  ok, err, arith, Option,
}
use tradecast.Types.{Uuid, Nanos}
use tradecast.Config.{AuthConfig}
use tradecast.Platform.{Platform}
use tradecast.World.{World}
use tradecast.Cache.Keys.{delete_api_key_cache}
use tradecast.Store.{KeyRow, ApiKey, ApiKeyStatus, active, Db, StoreError}
use tradecast.Store.Keys.{get_api_key_by_id, set_api_key_status}
use tradecast.Auth.Keys.{cached_key, to_cached, validate_key, is_rotated_out}
use tradecast.Auth.Keys
use tradecast.Auth.Keys.Validity.{IsOpaque, row_of, revoked_at_once}
use tradecast.Admin.{Reply, replied, Faults, with_id, with_body}
use tradecast.Admin.Keys.{
  key_or_none, updated, change_key, parse_status, set_status_parsed, set_key_status,
}

delete-IsOpaque :
    (fault : Bool) (hash : Text) (w : World)
    → IsOpaque w.lru
    → IsOpaque (delete_api_key_cache fault hash w.lru)
unfolding delete_api_key_cache
delete-IsOpaque true hash w h now k = h now k
delete-IsOpaque false hash w h now k = ground (arith, h now k)

-- What a reply of 200 says of the change of a key: the value, that the statement succeeded, and
-- that the entry of the key left the cache.
abbrev Changed :
    {A : Type 0} → Faults → A → A → (Db → Result StoreError Unit × Db) → World → World → Type 0
Changed f a b change w w' =
    (a ≡ b)
    × ((change w.db).0 ≡ ok tt)
    × (hash : Text) × (w'
        ≡ record w { db = (change w.db).1; lru = delete_api_key_cache f.cache hash w.lru })

updated-replied :
    {A : Type 0} (f : Faults) (hash : Text) (a b : A) (w : World) (r : Result StoreError Unit × Db)
    → (updated f hash a w r).0 ≡ replied 200 b
    → (a ≡ b)
      × (r.0 ≡ ok tt)
      × ((updated f hash a w r).1
          ≡ record w { db = r.1; lru = delete_api_key_cache f.cache hash w.lru })
updated-replied f hash a b w (err e, db) h = absurd (ground (arith, h))
updated-replied f hash a b w (ok u, db) h = (ground (arith, h), refl, refl)

change_key-replied :
    {A : Type 0} (f : Faults) (id : Uuid) (a b : A) (change : Db → Result StoreError Unit × Db)
    (w : World) (key : Option ApiKey)
    → (change_key f id a change w key).0 ≡ replied 200 b
    → Changed f a b change w (change_key f id a change w key).1
change_key-replied f id a b change w none h = absurd (ground (arith, h))
change_key-replied f id a b change w (some k) h =
    let (same, done, world) = updated-replied f k.key_hash a b w (change w.db) h in
    (same, done, k.key_hash, world)

status-replied :
    (f : Faults) (id : Uuid) (b : Uuid × ApiKeyStatus) (w : World) (status : Option ApiKeyStatus)
    → (set_status_parsed f id w status).0 ≡ replied 200 b
    → Changed f
        (id, b.1)
        b
        (set_api_key_status f.write id b.1)
        w
        (set_status_parsed f id w status).1
unfolding set_status_parsed
status-replied f id b w none h = absurd (ground (arith, h))
status-replied f id b w (some status) h =
    let (same, done, hash, world) =
      change_key-replied f id (id, status) b (set_api_key_status f.write id status) w
        (key_or_none (get_api_key_by_id f.read id w.db)) h in
    subst
      (λ (x : Uuid × ApiKeyStatus).
        Changed f (id, x.1) x (set_api_key_status f.write id x.1) w
          (set_status_parsed f id w (some status)).1)
      same (refl, done, hash, world)

key_status-replied :
    (p : Platform) (f : Faults) (parsed : Option Uuid) (body : Option Text)
    (b : Uuid × ApiKeyStatus) (w : World)
    → let handler : Uuid → Reply (Uuid × ApiKeyStatus) × World =
        λ id. with_body body w (λ status. set_status_parsed f id w (parse_status status)) in
      (with_id parsed (codes "invalid key id") w handler).0 ≡ replied 200 b
      → Changed f b b
          (set_api_key_status f.write b.0 b.1)
          w
          (with_id parsed (codes "invalid key id") w handler).1
key_status-replied p f none body b w h = absurd (ground (arith, h))
key_status-replied p f (some id) none b w h = absurd (ground (arith, h))
key_status-replied p f (some id) (some text) b w h =
    let (same, done, hash, world) = status-replied f id b w (parse_status text) h in
    let same_id = ap (λ (x : Uuid × ApiKeyStatus). x.0) same in
    subst
      (λ i.
        Changed f b b (set_api_key_status f.write i b.1) w
          (set_status_parsed f id w (parse_status text)).1)
      same_id (refl, done, hash, world)

not-err :
    (fault : Bool) (id : Uuid) (status : ApiKeyStatus) (db : Db)
    → (set_api_key_status fault id status db).0 ≡ ok tt
    → fault ≡ false
unfolding set_api_key_status
not-err true id status db h = absurd (ground (arith, h))
not-err false id status db h = refl

-- If the admin's PATCH of a key's status is replied to with 200 and a status other than active,
-- then from that moment on ValidateKey refuses the plaintext of that key, at any time, provided that
-- its query does not fail and no entry of the key cache decodes.
pub set_key_status-revokes :
    (p : Platform) (f : Faults) (id_text : Text) (body : Json Text) (w : World) (r : KeyRow)
    (status : ApiKeyStatus) (g : tradecast.Auth.Keys.Faults) (cfg : AuthConfig) (later : Nanos)
    (plaintext : Text)
    → (set_key_status p f id_text body w).0 ≡ replied 200 (r.id, status)
    → status ≢ active
    → row_of p plaintext w.db ≡ some r
    → IsOpaque w.lru
    → g.db_get ≡ false
    → (validate_key p g cfg later plaintext (set_key_status p f id_text body w).1).0 ≡ ok none
unfolding set_key_status
set_key_status-revokes p f id_text body w r status g cfg later plaintext h other found opaque up =
    let (_, done, hash, world) =
      key_status-replied p f (p.parse_uuid id_text) (unmarshal body) (r.id, status) w h in
    let lru = delete_api_key_cache f.cache hash w.lru in
    rw (world, not-err f.write r.id status w.db done)
      (revoked_at_once p g cfg later plaintext (record w { lru = lru }) r status
        (delete-IsOpaque f.cache hash w opaque) up found other)
