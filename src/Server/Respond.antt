-- ===== src/Server/Respond.antt =====
-- From the route to the handler: what the server of cmd/server/main.go answers to a request, and what
-- it does to the world.
use tradecast.Prelude.{ℕ, zero, suc, ℤ, Bool, Option, List, [], ◌∷◌, Text, Json}
use tradecast.Types.{Uuid, Nanos, InboundSignal}
use tradecast.Config.{AuthConfig}
use tradecast.Platform.{Platform}
use tradecast.World.{World}
use tradecast.Health
use tradecast.Health.{Report, ping_redis}
use tradecast.Store.{
  ApiKey, ApiKeyStatus, KeyRow, KeyMachine, WatchedSymbol, SignalRow, SubscriberRow, Subscriber,
}
use tradecast.Store.Keys.{RotateFaults}
use tradecast.Store.Metrics
use tradecast.Store.Metrics.{Metrics}
use tradecast.Signal
use tradecast.Signal.{Pending, receive}
use tradecast.Auth.Jwt
use tradecast.Auth.Jwt.{Tokens, AdminClaims}
use tradecast.Auth.Request
use tradecast.Admin
use tradecast.Admin.Session
use tradecast.Admin.Session.{Credentials}
use tradecast.Admin.Keys
use tradecast.Admin.Keys.{IssueRequest, KeyView}
use tradecast.Admin.Keys.Rotate
use tradecast.Admin.Machines
use tradecast.Admin.Machines.{KeyMachines}
use tradecast.Admin.Subscribers
use tradecast.Admin.Subscribers.{NewSubscriber}
use tradecast.Admin.Symbols
use tradecast.Admin.Reports
use tradecast.Server.{Method, Endpoint, Faults, Served, runs, serve}

-- What the body of a request reads as in each handler.
unfoldable pub BodyOf : Endpoint → Type 0
BodyOf Endpoint.log_in = Json Credentials
BodyOf Endpoint.refresh_token = Json Text
BodyOf Endpoint.log_out = Json Text
BodyOf Endpoint.receive_signal = Json InboundSignal
BodyOf Endpoint.issue_key = Json IssueRequest
BodyOf Endpoint.set_key_status = Json Text
BodyOf Endpoint.rotate_key = Json Text
BodyOf Endpoint.create_subscriber = Json NewSubscriber
BodyOf Endpoint.set_subscriber_active = Json Bool
BodyOf Endpoint.set_key_max_machines = Json (Option ℤ)
BodyOf Endpoint.add_symbol = Json Text
BodyOf Endpoint.set_symbol_active = Json Bool
BodyOf _ = Unit

-- What each handler writes.
unfoldable pub ReplyOf : Endpoint → Type 0
ReplyOf Endpoint.check_health = Report
ReplyOf Endpoint.log_in = Admin.Reply (Text × Text)
ReplyOf Endpoint.refresh_token = Admin.Reply Text
ReplyOf Endpoint.log_out = Admin.Reply Unit
ReplyOf Endpoint.receive_signal = Signal.Reply
ReplyOf Endpoint.get_pending = Pending
ReplyOf Endpoint.dashboard = Unit
ReplyOf Endpoint.issue_key = Admin.Reply (ApiKey × Text)
ReplyOf Endpoint.list_keys = Admin.Reply (List KeyView)
ReplyOf Endpoint.set_key_status = Admin.Reply (Uuid × ApiKeyStatus)
ReplyOf Endpoint.rotate_key = Admin.Reply (Uuid × Text × Nanos)
ReplyOf Endpoint.create_subscriber = Admin.Reply (Option Subscriber)
ReplyOf Endpoint.list_subscribers = Admin.Reply (List Subscriber)
ReplyOf Endpoint.set_subscriber_active = Admin.Reply (Uuid × Bool)
ReplyOf Endpoint.get_metrics = Admin.Reply (Metrics × ℕ)
ReplyOf Endpoint.list_signals = Admin.Reply (List SignalRow)
ReplyOf Endpoint.list_all_machines = Admin.Reply (List KeyMachine)
ReplyOf Endpoint.list_key_machines = Admin.Reply KeyMachines
ReplyOf Endpoint.remove_machine = Admin.Reply Text
ReplyOf Endpoint.set_key_max_machines = Admin.Reply (Uuid × Option ℤ)
ReplyOf Endpoint.list_symbols = Admin.Reply (List WatchedSymbol)
ReplyOf Endpoint.add_symbol = Admin.Reply Text
ReplyOf Endpoint.set_symbol_active = Admin.Reply (Text × Bool)
ReplyOf Endpoint.delete_symbol = Admin.Reply Text

-- A request: its headers, what its body reads as for each handler, and its query.
pub record Http : Type 0 where
  pub method : Method
  pub path : List Text
  pub headers : Request.Request
  pub signature : Text
  pub timestamp : Text
  pub body : (e : Endpoint) → BodyOf e
  pub limit : Text
  pub offset : Text

-- The circumstances of a call: which of its calls fail, the clock, the identifiers and the random
-- bytes that are drawn, the orders of the queries, and the answers of the pings.
pub record Context : Type 0 where
  pub served : Faults
  pub admin : Admin.Faults
  pub signal : Signal.Faults
  pub token : Jwt.Faults
  pub rotate : RotateFaults
  pub metrics : Metrics.Faults
  pub count_fault : Bool
  pub key_fault : Bool
  pub now : Nanos
  pub id : Uuid
  pub other_id : Uuid
  pub bytes : Option (List ℕ)
  pub keys : List KeyRow → List KeyRow
  pub machines : List KeyMachine → List KeyMachine
  pub symbols : List WatchedSymbol → List WatchedSymbol
  pub subscribers : List SubscriberRow → List SubscriberRow
  pub signals : List SignalRow → List SignalRow
  pub postgres : Option Text
  pub critical : Option Text
  pub lru : Option Text

-- what Receive reads of the outside
abbrev pub env_of : Context → Signal.Env
env_of x = record { now = x.now; signal_id = x.id; job_id = x.other_id }

-- what Receive reads of the request
unfoldable pub request_of : Http → Signal.Request
unfolding BodyOf
request_of h = record {
  signature = h.signature;
  timestamp = h.timestamp;
  body = h.body Endpoint.receive_signal;
}

-- `r.PathValue`, by the position of the wildcard
abbrev pub value : ℕ → List Text → Text
value n [] = []
value zero (v ∷ values) = v
value (suc n) (v ∷ values) = value n values

module _ (p : Platform) (t : Tokens) (cfg : AuthConfig) (x : Context) (h : Http)
    (values : List Text) (w : World) where
  -- the handler of an endpoint, with the values of the path
  unfoldable pub run : (e : Endpoint) → ReplyOf e × World
  unfolding BodyOf ReplyOf
  run Endpoint.check_health = (Health.check x.postgres (ping_redis x.critical x.lru) x.now, w)
  run Endpoint.log_in = Session.login p t cfg x.now x.id x.other_id (h.body Endpoint.log_in) w
  run Endpoint.refresh_token =
      Session.refresh p t x.token cfg x.now x.id (h.body Endpoint.refresh_token) w
  run Endpoint.log_out = Session.logout t x.token cfg x.now (h.body Endpoint.log_out) w
  run Endpoint.receive_signal = receive p x.signal cfg (env_of x) (request_of h) w
  run Endpoint.get_pending = (Signal.get_pending x.admin.cache (value 0 values) w, w)
  run Endpoint.dashboard = (tt, w)
  run Endpoint.issue_key = Keys.issue_key p x.admin x.now x.id x.bytes (h.body Endpoint.issue_key) w
  run Endpoint.list_keys = (Keys.list_keys x.keys x.admin w, w)
  run Endpoint.set_key_status =
      Keys.set_key_status p x.admin (value 0 values) (h.body Endpoint.set_key_status) w
  run Endpoint.rotate_key =
      Rotate.rotate_key p x.key_fault x.rotate x.now x.id x.bytes (value 0 values)
        (h.body Endpoint.rotate_key) w
  run Endpoint.create_subscriber =
      Subscribers.create p x.admin x.now x.id (h.body Endpoint.create_subscriber) w
  run Endpoint.list_subscribers = (Subscribers.list_subscribers x.subscribers x.admin w, w)
  run Endpoint.set_subscriber_active =
      Subscribers.set_active p x.admin (value 0 values) (h.body Endpoint.set_subscriber_active) w
  run Endpoint.get_metrics = (Reports.report_metrics x.metrics x.admin w, w)
  run Endpoint.list_signals = (Reports.report_signals x.signals x.admin h.limit h.offset w, w)
  run Endpoint.list_all_machines = (Machines.list_all_machines x.machines x.admin w, w)
  run Endpoint.list_key_machines =
      Machines.list_key_machines p x.machines x.admin.read x.count_fault x.key_fault
        (value 0 values) w
  run Endpoint.remove_machine =
      Machines.remove_machine_handler p x.admin (value 0 values) (value 1 values) w
  run Endpoint.set_key_max_machines =
      Keys.set_key_max_machines p x.admin (value 0 values) (h.body Endpoint.set_key_max_machines) w
  run Endpoint.list_symbols = (Symbols.list_symbols x.symbols x.admin w, w)
  run Endpoint.add_symbol = Symbols.add_symbol x.admin x.now x.id (h.body Endpoint.add_symbol) w
  run Endpoint.set_symbol_active =
      Symbols.set_symbol_active x.admin (value 0 values) (h.body Endpoint.set_symbol_active) w
  run Endpoint.delete_symbol = Symbols.delete_symbol x.admin (value 0 values) w

-- The reply of a handler, or what stopped the request before one.
pub data Response : Type 0 where
  handled : (e : Endpoint) → ReplyOf e → Response
  stopped : Served → Response

module _ (p : Platform) (t : Tokens) (cfg : AuthConfig) (x : Context) (h : Http) where
  -- what follows the middleware
  unfoldable pub handle_served : Served × World → Response × World
  handle_served (runs e values claims, w) =
      let (reply, w') = run p t cfg x h values w e in (handled e reply, w')
  handle_served (Served.preflight, w) = (stopped Served.preflight, w)
  handle_served (Served.redirected, w) = (stopped Served.redirected, w)
  handle_served (Served.not_found, w) = (stopped Served.not_found, w)
  handle_served (Served.not_allowed, w) = (stopped Served.not_allowed, w)
  handle_served (Served.unauthorized, w) = (stopped Served.unauthorized, w)
  handle_served (Served.key_refused a, w) = (stopped (Served.key_refused a), w)

  unfoldable pub respond : World → Response × World
  unfolding handle_served
  respond w = handle_served (serve p t x.served cfg x.now x.other_id h.method h.path h.headers w)
