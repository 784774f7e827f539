-- ===== src/Samples/Worker.antt =====
-- Concrete data for the tests of the worker: a network that answers every request with 200, and
-- settings.
use tradecast.Prelude.{false, none, [], codes, ok}
use tradecast.Config.{NotifyConfig}
use tradecast.Notify.{Wire, Env, Visit}
use tradecast.Worker.{Envs}

abbrev pub wire : Wire
wire = record {
  refuses = λ r. none;
  fixed = λ n x. codes "1.08542";
  clock = λ n. codes "12:00:00";
  decimal = λ n. codes "500";
  strings = λ fields. codes "{}";
  query = λ fields. codes "q";
  payload = λ id sig now. codes "{}";
  base64 = λ s. s;
}

abbrev pub visit : Visit
visit = record {
  log_id = 70;
  now = 9;
  insert_fault = false;
  mark_fault = false;
  call = λ r. ok (record { status = 200; body = [] });
}

abbrev pub env : Env
env = record {
  order = λ rows. rows;
  list_fault = false;
  driver_message = codes "down";
  visit = λ sub. visit;
}

abbrev pub envs : Envs
envs = record { telegram = env; whatsapp = env; webhook = env; mt4copier = env; sent_at = 5 }

abbrev pub settings : NotifyConfig
settings = record {
  telegram_token = codes "t";
  telegram_base_url = codes "https://api.telegram.org";
  whats_app_provider = codes "twilio";
  twilio_sid = [];
  twilio_token = [];
  twilio_from = [];
  call_me_bot_api_key = [];
}
