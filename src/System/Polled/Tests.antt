-- ===== src/System/Polled/Tests.antt =====
-- A signal that is posted and polled.
use tradecast.Prelude.{
  ◌≡◌, refl, none, [], ◌∷◌, codes, doc, text_eq, trim, trim_left, trim_space, to_upper, before,
  format_int, find, any, count_where,
}
use tradecast.Types.{CachedKey}
use tradecast.World.{World, empty_world}
use tradecast.Samples.{toy_platform, auth_config, sample, at_second}
use tradecast.Samples.Server.{tokens, http, context, bodies, request}
use tradecast.Store.{active, KeyRow, empty_db}
use tradecast.Store.Scopes.{split, keep_parts, parse_postgres_array}
use tradecast.Store.Keys.{scan_api_key, get_api_key_by_hash, touch_api_key_last_used}
use tradecast.Store.Machines.{count_machines}
use tradecast.Store.Signals.{insert_signal}
use tradecast.Cache.Keys.{get_auth_failures, get_api_key_cache, set_api_key_cache}
use tradecast.Cache.Queue.{enqueue_job}
use tradecast.Cache.Signals.{set_latest_signal, set_dedup, eq_ℤ}
use tradecast.Auth.Hmac.{verify_signal_hmac, is_too_old}
use tradecast.Auth.Keys.{validate_key, validate_row, accept_key, has_scope}
use tradecast.Auth.Machines.{check_machine_binding, check_key}
use tradecast.Auth.Middleware.{passed, api_key_middleware, authorize}
use tradecast.Auth.Request.{call_of, real_ip}
use tradecast.Signal.{
  Pending, normalized, receive, receive_signal, validate, is_signal_type, is_direction,
  normalize_symbol, admit, persist, publish,
}
use tradecast.Signal.Ingest.{IsAuthentic}
use tradecast.Server.{Method, serve, dispatch, guarded, lookup, match_path, takes}
use tradecast.Server.Respond.{Http, run, request_of, handle_served, respond}
use tradecast.System.Relay.{posted}
use tradecast.System.Polled.{polled, pending_response, respond-posted-polled}

abbrev row : KeyRow
row = record {
  id = 7;
  key_hash = codes "k";
  owner = codes "o";
  scopes = codes "{copy:receive}";
  status = active;
  max_machines = none;
  successor_key_id = none;
  rotate_at = none;
  note = [];
  created_at = 0;
  last_used_at = none;
}

abbrev one_key : World
one_key = record empty_world { db = record empty_db { api_keys = row ∷ [] } }

abbrev poller : Http
poller = record (http Method.get []) { headers = record request { x_api_key = codes "k" } }

abbrev key : CachedKey
key = record {
  id = codes "7";
  owner = codes "o";
  scopes = codes "copy:receive" ∷ [];
  status = codes "active";
}

authentic :
    IsAuthentic toy_platform auth_config
      (at_second 110)
      (request_of (posted (http Method.get [])))
      sample
unfolding request_of bodies validate is_signal_type is_direction text_eq normalize_symbol trim_space
    to_upper before verify_signal_hmac is_too_old format_int
authentic = record { headers = refl; body = refl; valid = refl; verified = refl }

same_symbol : to_upper (codes "eurusd") ≡ (normalized sample).symbol
unfolding to_upper normalize_symbol trim_space before
same_symbol = refl

allowed :
    (api_key_middleware toy_platform context.served.key auth_config context.now context.other_id
      (codes "copy:receive")
      (call_of poller.headers)
      (respond toy_platform tokens auth_config context (posted (http Method.get [])) one_key).1).0
    ≡ passed key
unfolding respond handle_served serve dispatch guarded lookup match_path takes run text_eq
    request_of bodies receive receive_signal validate is_signal_type is_direction normalize_symbol
    trim_space to_upper before verify_signal_hmac is_too_old format_int admit set_dedup eq_ℤ persist
    insert_signal publish set_latest_signal enqueue_job api_key_middleware call_of real_ip
    get_auth_failures validate_key get_api_key_cache validate_row get_api_key_by_hash find
    scan_api_key parse_postgres_array split keep_parts trim trim_left accept_key set_api_key_cache
    touch_api_key_last_used authorize has_scope any check_machine_binding check_key count_machines
    count_where
allowed = refl

respond-posted-polled_example :
    (respond toy_platform tokens auth_config context
      (polled poller (codes "eurusd"))
      (respond toy_platform tokens auth_config context (posted (http Method.get [])) one_key).1).0
    ≡ pending_response (Pending.found (doc (normalized sample)))
respond-posted-polled_example =
    respond-posted-polled toy_platform tokens auth_config context context (http Method.get [])
      poller sample one_key b'e' (codes "urusd") key refl refl authentic refl same_symbol allowed
