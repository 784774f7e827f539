-- ===== src/Samples/Server.antt =====
-- Concrete data for the tests of the server: tokens, a request, and circumstances in which no call
-- fails.
use tradecast.Prelude.{
  ltb, true, false, none, some, [], codes, doc, other, if◌then◌else◌, List, Text,
}
use tradecast.Auth.Jwt.{AdminClaims, Tokens}
use tradecast.Auth.Request.{Request}
use tradecast.Samples.{sample}
use tradecast.Server.{Method, Endpoint, Faults}
use tradecast.Server.Respond.{BodyOf, Http, Context}

abbrev pub claims : AdminClaims
claims = record {
  username = codes "admin";
  jti = codes "j";
  subject = codes "admin";
  issued_at = 0;
  expires_at = 1_000;
  issuer = codes "mt4signal";
  audience = codes "mt4signal-admin-access";
}

-- every text is a token for `claims`
abbrev pub tokens : Tokens
tokens = record {
  sign = λ secret c. some c.jti;
  parse = λ now secret token. if ltb now 1_000 then some claims else none;
  numeric_date = λ n. n;
  matches = λ hash password. true;
}

abbrev pub faults : Faults
faults = record {
  blocked = false;
  key = record {
    failures = false;
    record_failure = false;
    key = record { cache_get = false; db_get = false; cache_set = false; touch = false };
    machine = record {
      count = false;
      cache_get = false;
      cache_set = false;
      registered = false;
      max = false;
      register = record { lookup = false; touch = false; count = false; insert = false };
      touch = false;
    };
  };
}

abbrev pub request : Request
request = record {
  authorization = codes "Bearer t";
  x_forwarded_for = [];
  x_real_ip = [];
  remote_addr = codes "172.18.0.5:41000";
  x_api_key = [];
  x_account_id = [];
}

-- bodies: the sample to Receive, and bytes that no other handler can read
unfoldable pub bodies : (e : Endpoint) → BodyOf e
unfolding BodyOf
bodies Endpoint.log_in = other []
bodies Endpoint.refresh_token = other []
bodies Endpoint.log_out = other []
bodies Endpoint.receive_signal = doc sample
bodies Endpoint.issue_key = other []
bodies Endpoint.set_key_status = other []
bodies Endpoint.rotate_key = other []
bodies Endpoint.create_subscriber = other []
bodies Endpoint.set_subscriber_active = other []
bodies Endpoint.set_key_max_machines = other []
bodies Endpoint.add_symbol = other []
bodies Endpoint.set_symbol_active = other []
bodies Endpoint.check_health = tt
bodies Endpoint.get_pending = tt
bodies Endpoint.dashboard = tt
bodies Endpoint.list_keys = tt
bodies Endpoint.list_subscribers = tt
bodies Endpoint.get_metrics = tt
bodies Endpoint.list_signals = tt
bodies Endpoint.list_all_machines = tt
bodies Endpoint.list_key_machines = tt
bodies Endpoint.remove_machine = tt
bodies Endpoint.list_symbols = tt
bodies Endpoint.delete_symbol = tt

-- a request with the headers of a signed signal
abbrev pub http : Method → List Text → Http
http m path = record {
  method = m;
  path = path;
  headers = request;
  signature = codes "12:OPEN:EURUSD:t";
  timestamp = codes "t";
  body = bodies;
  limit = [];
  offset = [];
}

-- second 110
abbrev pub context : Context
context = record {
  served = faults;
  admin = record { read = false; write = false; read_back = false; cache = false };
  signal = record { dedup = false; insert = false; latest = false; enqueue = false };
  token = record { blocked = false; block = false };
  rotate = record { begin = false; insert = false; link = false; commit = false; get = false };
  metrics = record {
    signals = false;
    delivered = false;
    failed = false;
    dead = false;
    subscribers = false;
    keys = false;
    active_keys = false;
  };
  count_fault = false;
  key_fault = false;
  now = 110_000_000_000;
  id = 1;
  other_id = 2;
  bytes = none;
  keys = λ rows. rows;
  machines = λ rows. rows;
  symbols = λ rows. rows;
  subscribers = λ rows. rows;
  signals = λ rows. rows;
  postgres = none;
  critical = none;
  lru = none;
}
