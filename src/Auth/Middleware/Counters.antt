-- ===== src/Auth/Middleware/Counters.antt =====
-- Which failure counters APIKeyMiddleware of internal/auth/auth.go changes.
use tradecast.Prelude.{
  ℤ, if-both, option-both, not, ◌&&◌, ◌≡◌, ap, refl, ◌∙◌, Bool, true, false, none, some, Text,
  is_empty, text_eq, trim_space, arith, leb, Option, Result, ok, err,
}
use tradecast.Types.{Uuid, Nanos, CachedKey}
use tradecast.Config.{AuthConfig}
use tradecast.Platform.{Platform}
use tradecast.World.{World}
use tradecast.World.Frame.{KeepsSignals, Saved, Keeps, Keeps-refl, Keeps-trans}
use tradecast.Store.{
  StoreError, ApiKey, KeyMachine, Db, driver, unique_violation, machine_limit, not_found,
}
use tradecast.Store.Machines.{
  RegisterFaults, touch_machine_last_seen, touch_machine, insert_machine, registered,
  register_found, register_machine, is_full, counted,
}
use tradecast.Store.Keys.{get_api_key_by_hash, touch_api_key_last_used}
use tradecast.Cache.Keys.{
  get_auth_failures, get_api_key_cache, incr_auth_failure, set_api_key_cache,
}
use tradecast.Cache.Machines.{set_machine_allowed}
use tradecast.Auth.Keys.{
  validate_key, validate_row, accept_key, cached_key, has_scope, is_active, is_rotated_out,
}
use tradecast.Auth.Keys
use tradecast.Auth.Machines.{
  BindingError, check_machine_binding, check_key, check_account, check_database, after_register,
}
use tradecast.Auth.Machines
use tradecast.Auth.Middleware.{
  Call, Faults, bound, authorize, record_failure, failures_or_zero, api_key_middleware,
}

-- The failure counters are as they were, and so are the signals and the jobs.
abbrev Untouched : World → World → Type 0
Untouched w w' = (w'.lru.auth_failures ≡ w.lru.auth_failures) × Keeps w w'

Untouched-refl : (w : World) → Untouched w w
Untouched-refl w = (refl, Keeps-refl w)

Untouched-trans : (w w' w'' : World) → Untouched w w' → Untouched w' w'' → Untouched w w''
Untouched-trans w w' w'' (h, k) (h', k') = (h' ∙ h, Keeps-trans w w' w'' k k')

-- the same of the world in a result
abbrev Spared : {A : Type 0} → World → A × World → Type 0
Spared w r = Untouched w r.1

module _ (p : Platform) (f : Keys.Faults) (cfg : AuthConfig) (now : Nanos) where
  accept_key-Untouched :
      (hash : Text) (key : ApiKey) (w : World) → Untouched w (accept_key p f cfg now hash key w).1
  unfolding accept_key set_api_key_cache touch_api_key_last_used
  accept_key-Untouched hash key w =
      if-both (Spared w) (is_active key.status)
        (if-both (Spared w) (is_rotated_out now key.rotate_at) (Untouched-refl w)
          (ground arith, (ground arith, refl, refl, refl, refl)))
        (Untouched-refl w)

  validate_row-Untouched :
      (hash : Text) (w : World) (r : Result StoreError (Option ApiKey))
      → Untouched w (validate_row p f cfg now hash w r).1
  unfolding validate_row
  validate_row-Untouched hash w (err e) = Untouched-refl w
  validate_row-Untouched hash w (ok none) = Untouched-refl w
  validate_row-Untouched hash w (ok (some key)) = accept_key-Untouched hash key w

  validate_key-Untouched : (key : Text) (w : World) → Untouched w (validate_key p f cfg now key w).1
  unfolding validate_key
  validate_key-Untouched key w =
      let hash = p.sha256_hex key in
      option-both (Spared w) (cached_key (get_api_key_cache f.cache_get now hash w.lru))
        (validate_row-Untouched hash w (get_api_key_by_hash f.db_get hash w.db))
        (λ ck. Untouched-refl w)

touch-KeepsSignals :
    (fault : Bool) (now : Nanos) (key : Uuid) (account : Text) (db : Db)
    → KeepsSignals db (touch_machine_last_seen fault now key account db)
unfolding touch_machine_last_seen
touch-KeepsSignals fault now key account db = ground arith

registered-KeepsSignals :
    (db : Db) (r : Result StoreError Unit × Db)
    → KeepsSignals db r.1
    → KeepsSignals db (registered r).1
registered-KeepsSignals db (ok _, db') h = h
registered-KeepsSignals db (err unique_violation, db') h = h
registered-KeepsSignals db (err driver, db') h = h
registered-KeepsSignals db (err machine_limit, db') h = h
registered-KeepsSignals db (err not_found, db') h = h

insert_machine-KeepsSignals :
    (fault : Bool) (id : Uuid) (now : Nanos) (key : Uuid) (account : Text) (db : Db)
    → KeepsSignals db (insert_machine fault id now key account db).1
unfolding insert_machine
insert_machine-KeepsSignals fault id now key account db = ground arith

register_found-KeepsSignals :
    (f : RegisterFaults) (id : Uuid) (now : Nanos) (key : Uuid) (account : Text) (max : Option ℤ)
    (db : Db) (o : Option KeyMachine)
    → KeepsSignals db (register_found f id now key account max db o).1
unfolding register_found touch_machine
register_found-KeepsSignals f id now key account max db (some m) =
    if-both (KeepsSignals db) f.touch refl refl
register_found-KeepsSignals f id now key account max db none =
    if-both (Saved db) (is_full (counted f.count key db) max) refl
      (registered-KeepsSignals db _ (insert_machine-KeepsSignals f.insert id now key account db))

register_machine-KeepsSignals :
    (f : RegisterFaults) (id : Uuid) (now : Nanos) (key : Uuid) (account : Text) (max : Option ℤ)
    (db : Db)
    → KeepsSignals db (register_machine f id now key account max db).1
unfolding register_machine
register_machine-KeepsSignals f id now key account max db =
    if-both (Saved db) f.lookup refl (register_found-KeepsSignals f id now key account max db _)

module _ (p : Platform) (f : Machines.Faults) (now : Nanos) (id : Uuid) where
  after_register-Untouched :
      (key_text account : Text) (w : World) (r : Result StoreError Bool × Db)
      → KeepsSignals w.db r.1
      → Untouched w (after_register f now key_text account w r).1
  unfolding after_register set_machine_allowed
  after_register-Untouched key_text account w (ok b, db) h =
      (ground arith, (h, refl, refl, refl, refl))
  after_register-Untouched key_text account w (err machine_limit, db) h =
      (ground arith, (h, refl, refl, refl, refl))
  after_register-Untouched key_text account w (err driver, db) h =
      (refl, (h, refl, refl, refl, refl))
  after_register-Untouched key_text account w (err unique_violation, db) h =
      (refl, (h, refl, refl, refl, refl))
  after_register-Untouched key_text account w (err not_found, db) h =
      (refl, (h, refl, refl, refl, refl))

  check_database-Untouched :
      (key : Uuid) (key_text account : Text) (w : World) (r : Result StoreError Bool)
      → Untouched w (check_database f now id key key_text account w r).1
  unfolding check_database set_machine_allowed
  check_database-Untouched key key_text account w (err e) = Untouched-refl w
  check_database-Untouched key key_text account w (ok true) =
      (ground arith, (touch-KeepsSignals f.touch now key account w.db, refl, refl, refl, refl))
  check_database-Untouched key key_text account w (ok false) =
      after_register-Untouched key_text account w _
        (register_machine-KeepsSignals f.register id now key account _ w.db)

  check_account-Untouched :
      (key : Uuid) (key_text account : Text) (w : World) (r : Option Bool)
      → Untouched w (check_account f now id key key_text account w r).1
  unfolding check_account
  check_account-Untouched key key_text account w (some true) =
      (refl, (touch-KeepsSignals f.touch now key account w.db, refl, refl, refl, refl))
  check_account-Untouched key key_text account w (some false) = Untouched-refl w
  check_account-Untouched key key_text account w none =
      check_database-Untouched key key_text account w _

  check_key-Untouched :
      (key : Uuid) (key_text account : Text) (w : World)
      → Untouched w (check_key f now id key key_text account w).1
  unfolding check_key
  check_key-Untouched key key_text account w =
      if-both (Spared w) (is_empty account) (Untouched-refl w)
        (check_account-Untouched key key_text account w _)

  check_machine_binding-Untouched :
      (ck : CachedKey) (account : Text) (w : World)
      → Untouched w (check_machine_binding p f now id ck account w).1
  unfolding check_machine_binding
  check_machine_binding-Untouched ck account w =
      option-both (Spared w) (p.parse_uuid ck.id) (Untouched-refl w)
        (λ key. check_key-Untouched key ck.id account w)

-- The counters of other addresses than `ip` are as they were.
abbrev pub KeepsOthers : Text → World → World → Type 0
KeepsOthers ip w w' =
    (other : Text)
    → text_eq ip other ≡ false
    → w'.lru.auth_failures other ≡ w.lru.auth_failures other

-- The counters of other addresses than `ip` are as they were; so are the signals and the jobs.
abbrev OnlyCharges : Text → World → World → Type 0
OnlyCharges ip w w' = KeepsOthers ip w w' × Keeps w w'

abbrev ChargedOnly : {A : Type 0} → Text → World → A × World → Type 0
ChargedOnly ip w r = OnlyCharges ip w r.1

module _ (p : Platform) (f : Faults) (cfg : AuthConfig) (now : Nanos) (id : Uuid) (scope : Text)
    (c : Call) where
  Untouched-OnlyCharges : (w w' : World) → Untouched w w' → OnlyCharges c.ip w w'
  Untouched-OnlyCharges w w' h = (λ other ne. ap (λ m. m other) h.0, h.1)

  record_failure-OnlyCharges :
      (w w' : World) → Untouched w w' → OnlyCharges c.ip w (record_failure f cfg now c.ip w')
  unfolding record_failure incr_auth_failure
  record_failure-OnlyCharges w w' (h, k) = (λ other ne. ground (arith, ne) ∙ ap (λ m. m other) h, k)

  bound-world : (ck : CachedKey) (r : Option BindingError × World) → (bound ck r).1 ≡ r.1
  bound-world ck (none, w) = refl
  bound-world ck (some e, w) = refl

  authorize-OnlyCharges :
      (w : World) (r : Result StoreError (Option CachedKey) × World)
      → Untouched w r.1
      → OnlyCharges c.ip w (authorize p f cfg now id scope c r).1
  unfolding authorize
  authorize-OnlyCharges w (err e, w') h = Untouched-OnlyCharges w w' h
  authorize-OnlyCharges w (ok none, w') h = record_failure-OnlyCharges w w' h
  authorize-OnlyCharges w (ok (some ck), w') h =
      let account = trim_space c.account in
      let check = check_machine_binding p f.machine now id ck account w' in
      if-both (ChargedOnly c.ip w) (not (is_empty scope) && not (has_scope ck scope))
        (Untouched-OnlyCharges w w' h)
        (rw (bound-world ck check) (
          Untouched-OnlyCharges w check.1 (
            Untouched-trans w w' check.1 h
              (check_machine_binding-Untouched p f.machine now id ck account w'))))

  api_key_middleware-OnlyCharges :
      (w : World) → OnlyCharges c.ip w (api_key_middleware p f cfg now id scope c w).1
  unfolding api_key_middleware
  api_key_middleware-OnlyCharges w =
      if-both (ChargedOnly c.ip w)
        (leb cfg.rate_limit_max_fail
          (failures_or_zero (get_auth_failures f.failures now c.ip w.lru)))
        (Untouched-OnlyCharges w w (Untouched-refl w))
        (if-both (ChargedOnly c.ip w) (is_empty c.api_key)
          (record_failure-OnlyCharges w w (Untouched-refl w))
          (authorize-OnlyCharges w (validate_key p f.key cfg now c.api_key w)
            (validate_key-Untouched p f.key cfg now c.api_key w)))

  -- No address but the caller's own is charged with a failure.
  pub api_key_middleware-KeepsOthers :
      (w : World) → KeepsOthers c.ip w (api_key_middleware p f cfg now id scope c w).1
  api_key_middleware-KeepsOthers w = (api_key_middleware-OnlyCharges w).0

  pub api_key_middleware-Keeps :
      (w : World) → Keeps w (api_key_middleware p f cfg now id scope c w).1
  api_key_middleware-Keeps w = (api_key_middleware-OnlyCharges w).1
