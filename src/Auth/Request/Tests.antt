-- ===== src/Auth/Request/Tests.antt =====
-- Two attempts with claimed addresses, at concrete inputs.
use tradecast.Prelude.{
  ◌≡◌, refl, false, [], ◌∷◌, Text, codes, any, text_eq, trim_space, trim, arith,
}
use tradecast.World.{empty_world}
use tradecast.Config.{AuthConfig}
use tradecast.Samples.{toy_platform, auth_config}
use tradecast.Auth.Middleware.{Faults}
use tradecast.Auth.Request.Forwarded.{Attempt, AllFresh, is_too_many, run, run_unlimited}

abbrev sound : Faults
sound = record {
  failures = false;
  record_failure = false;
  key = record { cache_get = false; db_get = false; cache_set = false; touch = false };
  machine = record {
    count = false;
    cache_get = false;
    cache_set = false;
    registered = false;
    max = false;
    register = record { lookup = false; touch = false; count = false; insert = false };
    touch = false;
  };
}

-- One client tries a key and claims to call from `ip`.
abbrev attempt : Text → Text → Attempt
attempt ip key = record {
  request = record {
    authorization = [];
    x_forwarded_for = ip;
    x_real_ip = [];
    remote_addr = codes "172.18.0.5:41000";
    x_api_key = key;
    x_account_id = [];
  };
  remote = codes "203.0.113.9";
  faults = sound;
  now = 5;
  id = 1;
  scope = codes "copy:receive";
}

-- after one failure the limit is reached
abbrev strict : AuthConfig
strict = record auth_config { rate_limit_max_fail = 1 }

fresh :
    AllFresh (attempt (codes "1") (codes "a") ∷ attempt (codes "2") (codes "b") ∷ []) empty_world
unfolding any text_eq trim_space trim
fresh = ((refl, refl, refl), refl, refl, ((refl, refl, refl), refl, refl, tt))

run_unlimited_example :
    any is_too_many (
      run toy_platform strict
        (attempt (codes "1") (codes "a") ∷ attempt (codes "2") (codes "b") ∷ [])
        empty_world)
    ≡ false
run_unlimited_example =
    run_unlimited toy_platform strict
      (attempt (codes "1") (codes "a") ∷ attempt (codes "2") (codes "b") ∷ []) empty_world
      (omega arith) fresh
