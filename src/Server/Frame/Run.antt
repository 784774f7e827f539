-- ===== src/Server/Frame/Run.antt =====
-- Of all routes of cmd/server/main.go only POST /signal changes the signals or the jobs.
use tradecast.Prelude.{◌≢◌, refl, inl, inr, Option-cases, List, Text}
use tradecast.Config.{AuthConfig}
use tradecast.Platform.{Platform}
use tradecast.World.{World}
use tradecast.Auth.Jwt.{Tokens}
use tradecast.Auth.Middleware.Counters.{api_key_middleware-Keeps}
use tradecast.Auth.Request.{Request, call_of}
use tradecast.Server.{
  Method, Endpoint, Guard, unguarded, with_jwt, with_key, routes, lookup, guarded, dispatch, serve,
}
use tradecast.Server.Respond.{BodyOf, ReplyOf, Http, Context, run}
use tradecast.Server.Frame.{Keeps, Keeps-refl}
use tradecast.Server.Frame.Keys.{
  issue_key-Keeps, set_key_status-Keeps, rotate_key-Keeps, set_key_max_machines-Keeps,
}
use tradecast.Server.Frame.Others.{
  login-Keeps, refresh-Keeps, logout-Keeps, remove_machine_handler-Keeps, list_key_machines-Keeps,
  create-Keeps, set_active-Keeps, add_symbol-Keeps, set_symbol_active-Keeps, delete_symbol-Keeps,
}

module _ (p : Platform) (t : Tokens) (cfg : AuthConfig) (x : Context) (h : Http) where
  pub run-Keeps :
      (values : List Text) (w : World) (e : Endpoint)
      → e ≢ Endpoint.receive_signal
      → Keeps w (run p t cfg x h values w e).1
  unfolding run BodyOf ReplyOf
  run-Keeps values w Endpoint.receive_signal n = absurd (n refl)
  run-Keeps values w Endpoint.log_in n = login-Keeps p t cfg x.now x.id x.other_id _ w
  run-Keeps values w Endpoint.refresh_token n = refresh-Keeps p t x.token cfg x.now x.id _ w
  run-Keeps values w Endpoint.log_out n = logout-Keeps t x.token cfg x.now _ w
  run-Keeps values w Endpoint.issue_key n = issue_key-Keeps p x.admin x.now x.id x.bytes _ w
  run-Keeps values w Endpoint.set_key_status n = set_key_status-Keeps p x.admin _ _ w
  run-Keeps values w Endpoint.rotate_key n =
      rotate_key-Keeps p x.key_fault x.rotate x.now x.id x.bytes _ _ w
  run-Keeps values w Endpoint.create_subscriber n = create-Keeps p x.admin x.now x.id _ w
  run-Keeps values w Endpoint.set_subscriber_active n = set_active-Keeps p x.admin _ _ w
  run-Keeps values w Endpoint.list_key_machines n =
      list_key_machines-Keeps p x.machines x.admin.read x.count_fault x.key_fault _ w
  run-Keeps values w Endpoint.remove_machine n = remove_machine_handler-Keeps p x.admin _ _ w
  run-Keeps values w Endpoint.set_key_max_machines n = set_key_max_machines-Keeps p x.admin _ _ w
  run-Keeps values w Endpoint.add_symbol n = add_symbol-Keeps x.admin x.now x.id _ w
  run-Keeps values w Endpoint.set_symbol_active n = set_symbol_active-Keeps x.admin _ _ w
  run-Keeps values w Endpoint.delete_symbol n = delete_symbol-Keeps x.admin _ w
  run-Keeps values w Endpoint.check_health n = Keeps-refl w
  run-Keeps values w Endpoint.get_pending n = Keeps-refl w
  run-Keeps values w Endpoint.dashboard n = Keeps-refl w
  run-Keeps values w Endpoint.list_keys n = Keeps-refl w
  run-Keeps values w Endpoint.list_subscribers n = Keeps-refl w
  run-Keeps values w Endpoint.get_metrics n = Keeps-refl w
  run-Keeps values w Endpoint.list_signals n = Keeps-refl w
  run-Keeps values w Endpoint.list_all_machines n = Keeps-refl w
  run-Keeps values w Endpoint.list_symbols n = Keeps-refl w

  guarded-Keeps :
      (g : Guard) (e : Endpoint) (values : List Text) (r : Request) (w : World)
      → Keeps w (guarded p t x.served cfg x.now x.other_id g e values r w).1
  unfolding guarded
  guarded-Keeps unguarded e values r w = Keeps-refl w
  guarded-Keeps with_jwt e values r w = Keeps-refl w
  guarded-Keeps (with_key scope) e values r w =
      api_key_middleware-Keeps p x.served.key cfg x.now x.other_id scope (call_of r) w

  dispatch-Keeps :
      (m : Method) (path : List Text) (r : Request) (w : World)
      → Keeps w (dispatch p t x.served cfg x.now x.other_id m path r w).1
  unfolding dispatch
  dispatch-Keeps m path r w = elim (Option-cases (lookup routes m path)) [
    | inl q ↦ rw (q, dispatch) (Keeps-refl w)
    | inr ((found, values), q) ↦
        rw (q, dispatch) (guarded-Keeps found.guard found.endpoint values r w)
  ]

  pub serve-Keeps :
      (m : Method) (path : List Text) (r : Request) (w : World)
      → Keeps w (serve p t x.served cfg x.now x.other_id m path r w).1
  unfolding serve
  serve-Keeps Method.options path r w = Keeps-refl w
  serve-Keeps Method.get path r w = dispatch-Keeps Method.get path r w
  serve-Keeps Method.head path r w = dispatch-Keeps Method.head path r w
  serve-Keeps Method.post path r w = dispatch-Keeps Method.post path r w
  serve-Keeps Method.patch path r w = dispatch-Keeps Method.patch path r w
  serve-Keeps Method.delete path r w = dispatch-Keeps Method.delete path r w
  serve-Keeps Method.other_method path r w = dispatch-Keeps Method.other_method path r w
