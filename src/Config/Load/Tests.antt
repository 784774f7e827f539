-- ===== src/Config/Load/Tests.antt =====
-- Load in two environments.
use tradecast.Prelude.{◌≡◌, refl, none, [], pos, codes, atoi}
use tradecast.Samples.{toy_platform}
use tradecast.Config.Load.{Environment, must_env, get_int, postgres_config, load}

-- Everything is set, to a text that is no number.
abbrev full : Environment
full key = codes "x"

abbrev empty : Environment
empty key = []

reads_fallback : get_int full (codes "WORKER_MAX_RETRIES") (pos 5) ≡ pos 5
unfolding get_int atoi
reads_fallback = refl

empty_panics : load toy_platform empty ≡ none
unfolding load postgres_config must_env
empty_panics = refl
