-- ===== src/Server/Tests.antt =====
-- Requests to the server, and the theorems at concrete inputs.
use tradecast.Prelude.{
  ◌≡◌, ◌≢◌, ◌⊎◌, false, refl, none, some, [], ◌∷◌, codes, doc, ok, text_eq, arith,
}
use tradecast.World.{empty_world}
use tradecast.Cache.Keys.{is_jwt_blocked}
use tradecast.Samples.{toy_platform, auth_config}
use tradecast.Samples.Server.{claims, tokens, faults, request, http, context}
use tradecast.Auth.Jwt
use tradecast.Auth.Jwt.{AdminClaims, Tokens, validate_admin_token, check_claims, jwt_middleware}
use tradecast.Auth.Jwt.Revocation.{IsParser}
use tradecast.Auth.Request.{extract_bearer}
use tradecast.Admin.Session.{logout}
use tradecast.Server.{
  Method, Endpoint, Served, runs, takes, match_path, lookup, guarded, dispatch, serve,
}
use tradecast.Server.Respond.{Http, stopped, respond}
use tradecast.Server.Refused.{respond-admin}
use tradecast.Server.Frame.{Keeps}
use tradecast.Server.Frame.Posts.{IsReceived, respond-cases}
use tradecast.Server.LoggedOut.{logout-serve}

-- no text is a token
abbrev silent : Tokens
silent = record tokens { parse = λ now secret token. none }

tokens-IsParser : IsParser tokens
tokens-IsParser = record {
  stable = λ now later secret token c c' h h'. ground (arith, h, h');
  expires = λ now secret token c h. ground (arith, h);
}

listed :
    (serve toy_platform tokens faults auth_config 5 1 Method.get
      (codes "admin" ∷ codes "keys" ∷ [])
      request
      empty_world).0
    ≡ runs Endpoint.list_keys [] (some claims)
unfolding serve dispatch lookup takes match_path text_eq guarded extract_bearer jwt_middleware
    validate_admin_token check_claims is_jwt_blocked
listed = refl

-- HEAD goes to the handler of GET; a path of no pattern is not found.
unknown :
    (serve toy_platform tokens faults auth_config 5 1 Method.head
      (codes "nothing" ∷ [])
      request
      empty_world).0
    ≡ Served.not_found
unfolding serve dispatch lookup takes match_path text_eq
unknown = refl

abbrev sound : Jwt.Faults
sound = record { blocked = false; block = false }

valid : validate_admin_token tokens false auth_config 5 (codes "t") empty_world.lru ≡ ok claims
unfolding validate_admin_token check_claims is_jwt_blocked
valid = refl

sent : extract_bearer request ≡ codes "t"
unfolding extract_bearer
sent = refl

logout-serve_example :
    (serve toy_platform tokens faults auth_config 6 1 Method.get
      (codes "admin" ∷ codes "keys" ∷ [])
      request
      (logout tokens sound auth_config 5 (doc (codes "t")) empty_world).1).0
    ≢ runs Endpoint.list_keys [] (some claims)
logout-serve_example =
    logout-serve toy_platform tokens sound faults auth_config 5 6 1 (codes "t") empty_world claims
      Method.get (codes "keys" ∷ []) request Endpoint.list_keys [] (some claims) tokens-IsParser
      refl refl refl valid sent

-- a request without a token that would issue a key
abbrev intruder : Http
intruder = record (http Method.post (codes "admin" ∷ codes "keys" ∷ [])) {
  headers = record request { authorization = [] };
}

refused :
    (claims : AdminClaims)
    → validate_admin_token silent context.served.blocked auth_config context.now
        (extract_bearer intruder.headers)
        empty_world.lru
      ≢ ok claims
unfolding validate_admin_token check_claims
refused c h = ground (arith, h)

respond-admin_example :
    ((respond toy_platform silent auth_config context intruder empty_world).1 ≡ empty_world)
    × ((s : Served) × ((respond toy_platform silent auth_config context intruder empty_world).0
          ≡ stopped s))
respond-admin_example =
    respond-admin toy_platform silent auth_config context intruder (codes "keys" ∷ []) empty_world
      refl refused

respond-cases_example :
    Keeps empty_world
      (respond toy_platform tokens auth_config context
        (http Method.post (codes "signal" ∷ []))
        empty_world).1
    ⊎ IsReceived toy_platform tokens auth_config context
        (http Method.post (codes "signal" ∷ []))
        empty_world
        (respond toy_platform tokens auth_config context
          (http Method.post (codes "signal" ∷ []))
          empty_world).1
respond-cases_example =
    respond-cases toy_platform tokens auth_config context (http Method.post (codes "signal" ∷ []))
      empty_world
