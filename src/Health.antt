-- ===== src/Health.antt =====
-- internal/health/health.go. An answer of a ping is `none`, or the message of its error.
use tradecast.Prelude.{
  ℕ, ◌++◌, Bool, true, false, Option, none, some, Text, codes, ◌&&◌, if◌then◌else◌,
}
use tradecast.Types.{Nanos}

-- The status code and the body.
pub record Report : Type 0 where
  pub code : ℕ
  pub status : Text
  pub timestamp : Nanos
  pub postgres : Text
  pub redis : Text

abbrev is_none : Option Text → Bool
is_none none = true
is_none (some message) = false

-- the entry of a ping in the map of checks
unfoldable pub check_text : Option Text → Text
check_text none = codes "ok"
check_text (some message) = codes "error: " ++ message

-- Ping of cache.Client: the second server is asked only if the first answers.
unfoldable pub ping_redis : Option Text → Option Text → Option Text
ping_redis (some message) cache = some (codes "critical redis: " ++ message)
ping_redis none (some message) = some (codes "cache redis: " ++ message)
ping_redis none none = none

unfoldable pub check : Option Text → Option Text → Nanos → Report
check postgres redis now =
    let is_ok = is_none postgres && is_none redis in
    record {
      code = if is_ok then 200 else 503;
      status = if is_ok then codes "ok" else codes "degraded";
      timestamp = now;
      postgres = check_text postgres;
      redis = check_text redis;
    }
