-- ===== src/Server.antt =====
-- cmd/server/main.go: the routes and what stands in front of a handler. This file says which handler
-- runs for a request; the handlers are in Admin and Signal. A path is the list of its segments, as
-- http.ServeMux takes it apart: "/" is the empty list.
pub mod Guarded
pub mod LoggedOut
pub mod Respond
pub mod Frame
pub mod Refused
mod Tests
use tradecast.Prelude.{
  ◌++◌, Bool, true, false, Option, none, some, List, [], ◌∷◌, Text, codes, text_eq, is_empty,
  if◌then◌else◌,
}
use tradecast.Types.{Uuid, Nanos}
use tradecast.Config.{AuthConfig}
use tradecast.Platform.{Platform}
use tradecast.World.{World}
use tradecast.Auth.Jwt.{
  Tokens, Access, AdminClaims, missing_header, refused, admitted, jwt_middleware,
}
use tradecast.Auth.Middleware
use tradecast.Auth.Middleware.{Answer, api_key_middleware}
use tradecast.Auth.Request.{Request, extract_bearer, call_of}

pub data Method : Type 0 where
  get head post patch delete options other_method : Method

-- A segment of a pattern: a text, or a name in braces.
pub data Segment : Type 0 where
  literal : Text → Segment
  wildcard : Segment

-- The middleware around a handler.
pub data Guard : Type 0 where
  unguarded with_jwt : Guard
  with_key : Text → Guard

-- The handlers, by the names of the methods that implement them.
pub data Endpoint : Type 0 where
  check_health log_in refresh_token log_out receive_signal get_pending dashboard : Endpoint
  issue_key list_keys set_key_status rotate_key create_subscriber list_subscribers : Endpoint
  set_subscriber_active get_metrics list_signals list_all_machines list_key_machines : Endpoint
  remove_machine set_key_max_machines list_symbols add_symbol set_symbol_active : Endpoint
  delete_symbol : Endpoint

pub record Route : Type 0 where
  pub method : Method
  pub pattern : List Segment
  pub guard : Guard
  pub endpoint : Endpoint

abbrev route : Method → List Segment → Guard → Endpoint → Route
route m pattern guard endpoint = record {
  method = m;
  pattern = pattern;
  guard = guard;
  endpoint = endpoint;
}

-- `/admin/` and what follows, behind adminMW
abbrev admin_route : Method → List Segment → Endpoint → Route
admin_route m rest endpoint = route m (literal (codes "admin") ∷ rest) with_jwt endpoint

abbrev public_routes : List Route
public_routes =
    route Method.get (literal (codes "health") ∷ []) unguarded check_health
    ∷ route Method.post (literal (codes "auth") ∷ literal (codes "login") ∷ []) unguarded log_in
    ∷ route Method.post (literal (codes "auth") ∷ literal (codes "refresh") ∷ []) unguarded
        refresh_token
    ∷ route Method.post (literal (codes "auth") ∷ literal (codes "logout") ∷ []) with_jwt log_out
    ∷ route Method.post (literal (codes "signal") ∷ []) unguarded receive_signal
    ∷ route Method.get (literal (codes "pending") ∷ wildcard ∷ []) (with_key (codes "copy:receive"))
        get_pending
    ∷ route Method.get (literal (codes "dashboard") ∷ []) unguarded dashboard
    ∷ []

abbrev keys : Segment
keys = literal (codes "keys")

abbrev admin_routes : List Route
admin_routes =
    admin_route Method.post (keys ∷ []) issue_key
    ∷ admin_route Method.get (keys ∷ []) list_keys
    ∷ admin_route Method.patch (keys ∷ wildcard ∷ literal (codes "status") ∷ []) set_key_status
    ∷ admin_route Method.post (keys ∷ wildcard ∷ literal (codes "rotate") ∷ []) rotate_key
    ∷ admin_route Method.post (literal (codes "subscribers") ∷ []) create_subscriber
    ∷ admin_route Method.get (literal (codes "subscribers") ∷ []) list_subscribers
    ∷ admin_route Method.patch
        (literal (codes "subscribers") ∷ wildcard ∷ literal (codes "active") ∷ [])
        set_subscriber_active
    ∷ admin_route Method.get (literal (codes "metrics") ∷ []) get_metrics
    ∷ admin_route Method.get (literal (codes "signals") ∷ []) list_signals
    ∷ admin_route Method.get (literal (codes "machines") ∷ []) list_all_machines
    ∷ admin_route Method.get (keys ∷ wildcard ∷ literal (codes "machines") ∷ []) list_key_machines
    ∷ admin_route Method.delete (keys ∷ wildcard ∷ literal (codes "machines") ∷ wildcard ∷ [])
        remove_machine
    ∷ admin_route Method.patch (keys ∷ wildcard ∷ literal (codes "max-machines") ∷ [])
        set_key_max_machines
    ∷ admin_route Method.get (literal (codes "symbols") ∷ []) list_symbols
    ∷ admin_route Method.post (literal (codes "symbols") ∷ []) add_symbol
    ∷ admin_route Method.patch (literal (codes "symbols") ∷ wildcard ∷ []) set_symbol_active
    ∷ admin_route Method.delete (literal (codes "symbols") ∷ wildcard ∷ []) delete_symbol
    ∷ []

-- every pattern of the mux but "GET /"; no two match the same request
abbrev pub routes : List Route
routes = public_routes ++ admin_routes

-- A pattern of GET takes HEAD as well.
unfoldable pub takes : Method → Method → Bool
takes Method.get Method.get = true
takes Method.get Method.head = true
takes Method.post Method.post = true
takes Method.patch Method.patch = true
takes Method.delete Method.delete = true
takes _ _ = false

-- the values of the wildcards, if the pattern matches the path; a wildcard takes a segment that is
-- not empty
unfoldable pub match_path : List Segment → List Text → Option (List Text)
match_path [] [] = some []
match_path [] (s ∷ path) = none
match_path (p ∷ pattern) [] = none
match_path (literal t ∷ pattern) (s ∷ path) = if text_eq t s then match_path pattern path else none
match_path (wildcard ∷ pattern) (s ∷ path) =
    let rest = match_path pattern path in
    if is_empty s then none else elim rest [ none ↦ none | some values ↦ some (s ∷ values) ]

unfoldable pub lookup : List Route → Method → List Text → Option (Route × List Text)
lookup [] m path = none
lookup (r ∷ rs) m path =
    let rest = lookup rs m path in
    if takes r.method m
    then elim (match_path r.pattern path) [ none ↦ rest | some values ↦ some (r, values) ]
    else rest

-- What becomes of a request: an answer of the middleware or of the mux, or a handler that runs, with
-- the values of the path and the claims of the token that it finds in its context.
pub data Served : Type 0 where
  preflight redirected not_found not_allowed unauthorized : Served
  key_refused : Answer → Served
  runs : Endpoint → List Text → Option AdminClaims → Served

-- Which calls of the middleware fail.
pub record Faults : Type 0 where
  pub blocked : Bool
  pub key : Middleware.Faults

abbrev pub after_jwt : Endpoint → List Text → Access → Served
after_jwt e values missing_header = unauthorized
after_jwt e values refused = unauthorized
after_jwt e values (admitted claims) = runs e values (some claims)

abbrev pub after_key : Endpoint → List Text → Answer → Served
after_key e values (Answer.passed ck) = runs e values none
after_key e values Answer.too_many = key_refused Answer.too_many
after_key e values Answer.missing_key = key_refused Answer.missing_key
after_key e values Answer.internal_error = key_refused Answer.internal_error
after_key e values Answer.invalid_key = key_refused Answer.invalid_key
after_key e values Answer.no_scope = key_refused Answer.no_scope
after_key e values (Answer.rejected b) = key_refused (Answer.rejected b)

-- "GET /": every other GET; without it a request that no pattern takes would be not found
abbrev pub fallback : Method → List Text → Served
fallback Method.get [] = redirected
fallback Method.get (s ∷ path) = not_found
fallback Method.head [] = redirected
fallback Method.head (s ∷ path) = not_found
fallback Method.post path = not_allowed
fallback Method.patch path = not_allowed
fallback Method.delete path = not_allowed
fallback Method.options path = not_allowed
fallback Method.other_method path = not_allowed

module _ (p : Platform) (t : Tokens) (f : Faults) (cfg : AuthConfig) (now : Nanos) (id : Uuid) where
  -- the middleware of a route
  unfoldable pub guarded : Guard → Endpoint → List Text → Request → World → Served × World
  guarded unguarded e values r w = (runs e values none, w)
  guarded with_jwt e values r w =
      (after_jwt e values (jwt_middleware t f.blocked cfg now (extract_bearer r) w.lru), w)
  guarded (with_key scope) e values r w =
      let (answer, w') = api_key_middleware p f.key cfg now id scope (call_of r) w in
      (after_key e values answer, w')

  -- the mux
  unfoldable pub dispatch : Method → List Text → Request → World → Served × World
  dispatch m path r w = elim (lookup routes m path) [
    | none ↦ (fallback m path, w)
    | some (found, values) ↦ guarded found.guard found.endpoint values r w
  ]

  -- corsMiddleware around the mux
  unfoldable pub serve : Method → List Text → Request → World → Served × World
  serve Method.options path r w = (preflight, w)
  serve Method.get path r w = dispatch Method.get path r w
  serve Method.head path r w = dispatch Method.head path r w
  serve Method.post path r w = dispatch Method.post path r w
  serve Method.patch path r w = dispatch Method.patch path r w
  serve Method.delete path r w = dispatch Method.delete path r w
  serve Method.other_method path r w = dispatch Method.other_method path r w
