-- ===== src/Config/Load.antt =====
-- Load of internal/config/config.go.
pub mod Required
mod Tests
use tradecast.Prelude.{
  ℕ, ◌*◌, ℤ, pos, negsuc, Bool, true, false, Option, none, some, [], Text, codes, is_empty, atoi,
  if◌then◌else◌,
}
use tradecast.Platform.{Platform}
use tradecast.Config.{AuthConfig, WorkerConfig, NotifyConfig}

infixl 5 ◌>>=◌
abbrev pub ◌>>=◌ : {A B : Type 0} → Option A → (A → Option B) → Option B
none >>= f = none
some a >>= f = f a

pub record ServerConfig : Type 0 where
  pub port : Text
  pub read_timeout : ℤ
  pub write_timeout : ℤ

pub record PostgresConfig : Type 0 where
  pub dsn : Text
  pub max_open_conns : ℤ
  pub max_idle_conns : ℤ

pub record RedisConfig : Type 0 where
  pub critical_addr : Text
  pub cache_addr : Text
  pub password : Text

-- AuthConfig and WorkerConfig with the numbers as they are read
pub record AuthSettings : Type 0 where
  pub signal_hmac_secret : Text
  pub signal_timestamp_ttl : ℤ
  pub key_cache_ttl : ℤ
  pub rate_limit_window : ℤ
  pub rate_limit_max_fail : ℤ
  pub deduplicate_ttl : ℤ
  pub jwt_secret : Text
  pub jwt_access_token_ttl : ℤ
  pub jwt_refresh_token_ttl : ℤ
  pub admin_username : Text
  pub admin_password_hash : Text

pub record WorkerSettings : Type 0 where
  pub concurrency : ℤ
  pub max_retries : ℤ
  pub base_backoff : ℤ
  pub max_backoff : ℤ
  pub stale_job_threshold : ℤ
  pub cleanup_interval : ℤ

pub record Settings : Type 0 where
  pub server : ServerConfig
  pub postgres : PostgresConfig
  pub redis : RedisConfig
  pub auth : AuthSettings
  pub worker : WorkerSettings
  pub notify : NotifyConfig

-- os.Getenv: a variable that is not set reads as the empty text.
abbrev pub Environment : Type 0
Environment = Text → Text

-- `none`: a panic
unfoldable pub must_env : Environment → Text → Option Text
must_env env key = if is_empty (env key) then none else some (env key)

unfoldable pub get_env : Environment → Text → Text → Text
get_env env key fallback = if is_empty (env key) then fallback else env key

-- the number that was read, or the fallback
abbrev pub parsed_or : ℤ → ℤ × Bool → ℤ
parsed_or fallback (n, true) = n
parsed_or fallback (n, false) = fallback

unfoldable pub get_int : Environment → Text → ℤ → ℤ
get_int env key fallback =
    if is_empty (env key) then fallback else parsed_or fallback (atoi (env key))

abbrev pub duration_or : ℤ → Option ℤ → ℤ
duration_or fallback none = fallback
duration_or fallback (some d) = d

unfoldable pub get_duration : Platform → Environment → Text → ℤ → ℤ
get_duration p env key fallback =
    if is_empty (env key) then fallback else duration_or fallback (p.parse_duration (env key))

abbrev pub seconds : ℕ → ℤ
seconds n = pos (n * 1_000_000_000)

abbrev minutes : ℕ → ℤ
minutes n = seconds (n * 60)

unfoldable pub server_config : Platform → Environment → ServerConfig
server_config p env = record {
  port = get_env env (codes "SERVER_PORT") (codes "8080");
  read_timeout = get_duration p env (codes "SERVER_READ_TIMEOUT") (seconds 10);
  write_timeout = get_duration p env (codes "SERVER_WRITE_TIMEOUT") (seconds 10);
}

unfoldable pub postgres_config : Environment → Option PostgresConfig
postgres_config env = do
  dsn ← must_env env (codes "POSTGRES_DSN")
  some (record {
    dsn = dsn;
    max_open_conns = get_int env (codes "POSTGRES_MAX_OPEN_CONNS") (pos 25);
    max_idle_conns = get_int env (codes "POSTGRES_MAX_IDLE_CONNS") (pos 10);
  })

unfoldable pub redis_config : Environment → RedisConfig
redis_config env = record {
  critical_addr = get_env env (codes "REDIS_CRITICAL_ADDR") (codes "localhost:6379");
  cache_addr = get_env env (codes "REDIS_CACHE_ADDR") (codes "localhost:6380");
  password = get_env env (codes "REDIS_PASSWORD") [];
}

unfoldable pub auth_settings : Platform → Environment → Option AuthSettings
auth_settings p env = do
  hmac ← must_env env (codes "SIGNAL_HMAC_SECRET")
  jwt ← must_env env (codes "JWT_SECRET")
  username ← must_env env (codes "ADMIN_USERNAME")
  hash ← must_env env (codes "ADMIN_PASSWORD_HASH")
  some (record {
    signal_hmac_secret = hmac;
    signal_timestamp_ttl = get_duration p env (codes "SIGNAL_TIMESTAMP_TTL") (seconds 30);
    key_cache_ttl = get_duration p env (codes "AUTH_KEY_CACHE_TTL") (minutes 5);
    rate_limit_window = get_duration p env (codes "AUTH_RATE_LIMIT_WINDOW") (minutes 15);
    rate_limit_max_fail = get_int env (codes "AUTH_RATE_LIMIT_MAX_FAIL") (pos 10);
    deduplicate_ttl = get_duration p env (codes "AUTH_DEDUP_TTL") (seconds 60);
    jwt_secret = jwt;
    jwt_access_token_ttl = get_duration p env (codes "JWT_ACCESS_TTL") (minutes 15);
    jwt_refresh_token_ttl = get_duration p env (codes "JWT_REFRESH_TTL") (minutes (7 * 24 * 60));
    admin_username = username;
    admin_password_hash = hash;
  })

unfoldable pub worker_settings : Platform → Environment → WorkerSettings
worker_settings p env = record {
  concurrency = get_int env (codes "WORKER_CONCURRENCY") (pos 10);
  max_retries = get_int env (codes "WORKER_MAX_RETRIES") (pos 5);
  base_backoff = get_duration p env (codes "WORKER_BASE_BACKOFF") (seconds 1);
  max_backoff = get_duration p env (codes "WORKER_MAX_BACKOFF") (minutes 5);
  stale_job_threshold = get_duration p env (codes "WORKER_STALE_JOB_THRESHOLD") (seconds 60);
  cleanup_interval = get_duration p env (codes "WORKER_CLEANUP_INTERVAL") (seconds 30);
}

unfoldable pub notify_config : Environment → NotifyConfig
notify_config env = record {
  telegram_token = get_env env (codes "TELEGRAM_BOT_TOKEN") [];
  telegram_base_url = get_env env (codes "TELEGRAM_BASE_URL") (codes "https://api.telegram.org");
  whats_app_provider = get_env env (codes "WHATSAPP_PROVIDER") (codes "twilio");
  twilio_sid = get_env env (codes "TWILIO_ACCOUNT_SID") [];
  twilio_token = get_env env (codes "TWILIO_AUTH_TOKEN") [];
  twilio_from = get_env env (codes "TWILIO_FROM_NUMBER") [];
  call_me_bot_api_key = get_env env (codes "CALLMEBOT_API_KEY") [];
}

-- `none`: a required variable is not set, and Load panics.
unfoldable pub load : Platform → Environment → Option Settings
load p env = do
  postgres ← postgres_config env
  auth ← auth_settings p env
  some (record {
    server = server_config p env;
    postgres = postgres;
    redis = redis_config env;
    auth = auth;
    worker = worker_settings p env;
    notify = notify_config env;
  })
