-- ===== src/Auth/Middleware/Gate.antt =====
-- What a request with an API key must have to reach its handler.
use tradecast.Prelude.{
  leb, ◌||◌, ◌&&◌, not, ◌≡◌, ◌↔◌, sym, ap, subst, true, false, Bool, Option, none, some, Text,
  is_empty, trim_space, Result, ok, err, arith, if◌then◌else◌,
}
use tradecast.Types.{Uuid, Nanos, CachedKey}
use tradecast.Config.{AuthConfig}
use tradecast.Platform.{Platform}
use tradecast.World.{World}
use tradecast.Store.{StoreError}
use tradecast.Cache.Keys.{get_auth_failures}
use tradecast.Auth.Keys.{validate_key, has_scope}
use tradecast.Auth.Machines.{BindingError, check_machine_binding}
use tradecast.Auth.Middleware.{
  Call, Faults, passed, no_scope, failures_or_zero, bound, authorize, api_key_middleware,
}

bound-passed :
    (ck ck' : CachedKey) (r : Option BindingError × World)
    → ((bound ck r).0 ≡ passed ck') ↔ ((ck ≡ ck') × (r.0 ≡ none))
bound-passed ck ck' (none, w) = ground arith
bound-passed ck ck' (some e, w) = ground arith

-- The scope is not asked for, or the key has it.
abbrev pub InScope : CachedKey → Text → Type 0
InScope ck scope = (is_empty scope || has_scope ck scope) ≡ true

guarded-passed :
    (missing : Bool) (ck ck' : CachedKey) (w : World) (r : Option BindingError × World)
    → ((if missing then (no_scope, w) else bound ck r).0 ≡ passed ck')
      ↔ ((missing ≡ false) × (ck ≡ ck') × (r.0 ≡ none))
guarded-passed true ck ck' w r = ground arith
guarded-passed false ck ck' w r = ground (arith, bound-passed ck ck' r)

key_of : CachedKey → Result StoreError (Option CachedKey) → CachedKey
key_of d (ok (some ck)) = ck
key_of d (ok none) = d
key_of d (err e) = d

ok_some_inj :
    (ck ck' : CachedKey)
    → ◌≡◌ {A = Result StoreError (Option CachedKey)} (ok (some ck)) (ok (some ck'))
    → ck ≡ ck'
unfolding key_of
ok_some_inj ck ck' h = ap (key_of ck) h

-- What follows ValidateKey lets the request pass exactly if the key is valid, has the scope, and its
-- account is allowed.
authorize-passed :
    (p : Platform) (f : Faults) (cfg : AuthConfig) (now : Nanos) (id : Uuid) (scope : Text)
    (c : Call) (r : Result StoreError (Option CachedKey) × World) (ck : CachedKey)
    → ((authorize p f cfg now id scope c r).0 ≡ passed ck) ↔ (
        (r.0 ≡ ok (some ck))
        × InScope ck scope
        × ((check_machine_binding p f.machine now id ck (trim_space c.account) r.1).0 ≡ none))
unfolding authorize
authorize-passed p f cfg now id scope c (err e, w) ck = ground arith
authorize-passed p f cfg now id scope c (ok none, w) ck = ground arith
authorize-passed p f cfg now id scope c (ok (some k), w) ck =
    let lacks = not (is_empty scope) && not (has_scope k scope) in
    let check : CachedKey → Option BindingError × World =
      λ x. check_machine_binding p f.machine now id x (trim_space c.account) w in
    let passes = guarded-passed lacks k ck w (check k) in
    (
      (λ h.
          let same = (passes.0 h).1 in
          (
            ap (λ x. ok (some x)) same,
            subst (λ x. InScope x scope) same (ground (arith, (passes.0 h).0)),
            subst (λ x. (check x).0 ≡ none) same (passes.0 h).2,
          )),
      (λ (e, s, n).
          let same = ok_some_inj k ck e in
          let in_scope = subst (λ x. InScope x scope) (sym same) s in
          passes.1 (ground (arith, in_scope), same, subst (λ x. (check x).0 ≡ none) (sym same) n)),
    )

-- A request reaches its handler, with the key `ck` in its context, exactly if its address has fewer
-- failures than the maximum, it sends a key, ValidateKey answers `ck`, the key has the scope that the
-- route asks for, and CheckMachineBinding allows its account. The world is any, and any call may fail.
pub api_key_middleware_iff :
    (p : Platform) (f : Faults) (cfg : AuthConfig) (now : Nanos) (id : Uuid) (scope : Text)
    (c : Call) (w : World) (ck : CachedKey)
    → let checked = validate_key p f.key cfg now c.api_key w in
      ((api_key_middleware p f cfg now id scope c w).0 ≡ passed ck) ↔ (
        (leb cfg.rate_limit_max_fail
            (failures_or_zero (get_auth_failures f.failures now c.ip w.lru))
          ≡ false)
        × (is_empty c.api_key ≡ false)
        × (checked.0 ≡ ok (some ck))
        × InScope ck scope
        × ((check_machine_binding p f.machine now id ck (trim_space c.account) checked.1).0 ≡ none))
unfolding api_key_middleware
api_key_middleware_iff p f cfg now id scope c w ck =
    ground
      (arith, authorize-passed p f cfg now id scope c (validate_key p f.key cfg now c.api_key w) ck)
