-- ===== src/Samples.antt =====
-- Concrete data for the tests: a platform whose signatures are the messages themselves, settings,
-- and a signal.
pub mod Worker
pub mod Server
use tradecast.Prelude.{ℕ, ◌*◌, some, none, pos, codes, doc}
use tradecast.Types.{InboundSignal}
use tradecast.Config.{AuthConfig, WorkerConfig}
use tradecast.Platform.{Platform}
use tradecast.Signal.{Request, Env}

-- Every text is a timestamp for second 100.
abbrev pub toy_platform : Platform
toy_platform = record {
  sha256_hex = λ s. s;
  hmac_hex = λ secret message. message;
  parse_rfc3339 = λ s. some 100_000_000_000;
  parse_uuid = λ s. some 7;
  parse_duration = λ s. some (pos 60_000_000_000);
  uuid_text = λ u. codes "7";
  text_array = λ s. some s;
}

abbrev pub auth_config : AuthConfig
auth_config = record {
  signal_hmac_secret = codes "secret";
  signal_timestamp_ttl = 30_000_000_000;
  key_cache_ttl = 300_000_000_000;
  rate_limit_window = 900_000_000_000;
  rate_limit_max_fail = 10;
  deduplicate_ttl = 60_000_000_000;
  jwt_secret = codes "jwt";
  jwt_access_token_ttl = 900_000_000_000;
  jwt_refresh_token_ttl = 604_800_000_000_000;
  admin_username = codes "admin";
  admin_password_hash = codes "hash";
}

abbrev pub worker_config : WorkerConfig
worker_config = record {
  concurrency = 10;
  max_retries = 5;
  base_backoff = 1_000_000_000;
  max_backoff = 300_000_000_000;
  stale_job_threshold = 60_000_000_000;
  cleanup_interval = 30_000_000_000;
}

abbrev pub sample : InboundSignal
sample = record {
  ticket_id = pos 12;
  signal_type = codes "OPEN";
  symbol = codes " eurusd.m";
  direction = codes "BUY";
  price = pos 108_542_000;
  sl = none;
  tp = none;
  lot = pos 10_000_000;
  timestamp = 100_000_000_000;
}

abbrev pub request : Request
request = record { signature = codes "12:OPEN:EURUSD:t"; timestamp = codes "t"; body = doc sample }

abbrev pub at_second : ℕ → Env
at_second n = record { now = n * 1_000_000_000; signal_id = 1; job_id = 2 }
