-- ===== src/Auth/Middleware.antt =====
-- APIKeyMiddleware of internal/auth/auth.go, around a handler that is not run here.
pub mod Gate
pub mod Counters
use tradecast.Prelude.{
  ℕ, leb, ◌&&◌, not, Bool, Option, none, some, Text, is_empty, trim_space, Result, ok, err, Fault,
  if◌then◌else◌,
}
use tradecast.Types.{Uuid, Nanos, CachedKey}
use tradecast.Config.{AuthConfig}
use tradecast.Platform.{Platform}
use tradecast.World.{World}
use tradecast.Store.{StoreError}
use tradecast.Cache.Keys.{get_auth_failures, incr_auth_failure}
use tradecast.Auth.Keys.{validate_key, has_scope}
use tradecast.Auth.Machines.{BindingError, check_machine_binding}

-- The headers that the middleware reads; `ip` is what realIP returns.
pub record Call : Type 0 where
  pub ip : Text
  pub api_key : Text
  pub account : Text

pub record Faults : Type 0 where
  pub failures : Bool
  pub record_failure : Bool
  pub key : tradecast.Auth.Keys.Faults
  pub machine : tradecast.Auth.Machines.Faults

pub data Answer : Type 0 where
  too_many missing_key internal_error invalid_key no_scope : Answer
  rejected : BindingError → Answer
  passed : CachedKey → Answer

-- an error of the cache reads as no failures
abbrev pub failures_or_zero : Result Fault ℕ → ℕ
failures_or_zero (err e) = 0
failures_or_zero (ok n) = n

unfoldable pub record_failure : Faults → AuthConfig → Nanos → Text → World → World
record_failure f cfg now ip w = record w {
  lru = (incr_auth_failure f.record_failure now ip cfg.rate_limit_window w.lru).1;
}

-- what follows CheckMachineBinding
abbrev pub bound : CachedKey → Option BindingError × World → Answer × World
bound ck (none, w) = (passed ck, w)
bound ck (some e, w) = (rejected e, w)

-- what follows ValidateKey
unfoldable pub authorize :
    Platform
    → Faults
    → AuthConfig
    → Nanos
    → Uuid
    → Text
    → Call
    → Result StoreError (Option CachedKey) × World
    → Answer × World
authorize p f cfg now id scope c (err e, w) = (internal_error, w)
authorize p f cfg now id scope c (ok none, w) = (invalid_key, record_failure f cfg now c.ip w)
authorize p f cfg now id scope c (ok (some ck), w) =
    if not (is_empty scope) && not (has_scope ck scope)
    then (no_scope, w)
    else bound ck (check_machine_binding p f.machine now id ck (trim_space c.account) w)

unfoldable pub api_key_middleware :
    Platform → Faults → AuthConfig → Nanos → Uuid → Text → Call → World → Answer × World
api_key_middleware p f cfg now id scope c w =
    let failures = failures_or_zero (get_auth_failures f.failures now c.ip w.lru) in
    if leb cfg.rate_limit_max_fail failures
    then (too_many, w)
    else if is_empty c.api_key
    then (missing_key, record_failure f cfg now c.ip w)
    else authorize p f cfg now id scope c (validate_key p f.key cfg now c.api_key w)
