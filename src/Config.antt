-- ===== src/Config.antt =====
-- The settings of internal/config/config.go that the modelled components read. Durations and counts
-- are natural numbers here; Config.Load reads them as Go does, with a sign.
pub mod Load
use tradecast.Prelude.{ℕ, Text}
use tradecast.Types.{Nanos}

pub record AuthConfig : Type 0 where
  pub signal_hmac_secret : Text
  pub signal_timestamp_ttl : Nanos
  pub key_cache_ttl : Nanos
  pub rate_limit_window : Nanos
  pub rate_limit_max_fail : ℕ
  pub deduplicate_ttl : Nanos
  pub jwt_secret : Text
  pub jwt_access_token_ttl : Nanos
  pub jwt_refresh_token_ttl : Nanos
  pub admin_username : Text
  pub admin_password_hash : Text

pub record WorkerConfig : Type 0 where
  pub concurrency : ℕ
  pub max_retries : ℕ
  pub base_backoff : Nanos
  pub max_backoff : Nanos
  pub stale_job_threshold : Nanos
  pub cleanup_interval : Nanos

pub record NotifyConfig : Type 0 where
  pub telegram_token : Text
  pub telegram_base_url : Text
  pub whats_app_provider : Text
  pub twilio_sid : Text
  pub twilio_token : Text
  pub twilio_from : Text
  pub call_me_bot_api_key : Text
