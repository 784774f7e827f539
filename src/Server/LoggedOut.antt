-- ===== src/Server/LoggedOut.antt =====
-- Logging out (internal/admin/admin.go) against the routes of cmd/server/main.go.
use tradecast.Prelude.{
  ◌≡◌, ◌≢◌, refl, ◌∙◌, subst, false, Option, List, ◌∷◌, Text, codes, is_empty, doc, ok,
}
use tradecast.Types.{Uuid, Nanos}
use tradecast.Config.{AuthConfig}
use tradecast.Platform.{Platform}
use tradecast.World.{World}
use tradecast.Auth.Jwt
use tradecast.Auth.Jwt.{Tokens, AdminClaims, block_rest, revoke_admin_token, validate_admin_token}
use tradecast.Auth.Jwt.Revocation.{IsParser, used-refused, revoke-block_rest}
use tradecast.Auth.Request.{Request, extract_bearer}
use tradecast.Admin.Session.{logout}
use tradecast.Server.{Method, Endpoint, Faults, runs, serve}
use tradecast.Server.Guarded.{serve-admin}

logout-lru :
    (t : Tokens) (g : Jwt.Faults) (cfg : AuthConfig) (now : Nanos) (token : Text) (w : World)
    → is_empty token ≡ false
    → (logout t g cfg now (doc token) w).1.lru ≡ (revoke_admin_token t g cfg now token w.lru).1
unfolding logout
logout-lru t g cfg now token w full = rw full refl

-- Let the parser give a token the same claims at all times and none once it has expired. After the
-- handler of a logout was given a token that is valid, and blocked it without a failure, no handler
-- under "/admin/" runs for a request with that token, at any time, if the cache has not changed
-- since and the middleware's check does not fail.
pub logout-serve :
    (p : Platform) (t : Tokens) (g : Jwt.Faults) (f : Faults) (cfg : AuthConfig) (now later : Nanos)
    (id : Uuid) (token : Text) (w : World) (claims : AdminClaims) (m : Method) (path : List Text)
    (r : Request) (e : Endpoint) (values : List Text) (c : Option AdminClaims)
    → IsParser t
    → g.block ≡ false
    → f.blocked ≡ false
    → is_empty token ≡ false
    → validate_admin_token t g.blocked cfg now token w.lru ≡ ok claims
    → extract_bearer r ≡ token
    → (serve p t f cfg later id m (codes "admin" ∷ path) r (logout t g cfg now (doc token) w).1).0
      ≢ runs e values c
logout-serve p t g f cfg now later id token w claims m path r e values c parser hb hf full valid
      sent ran =
    let after = (logout t g cfg now (doc token) w).1 in
    let (claims', _, seen) = serve-admin p t f cfg later id r after e values c m path ran in
    let blocked : after.lru ≡ (block_rest false now claims w.lru).1 =
      logout-lru t g cfg now token w full
      ∙ revoke-block_rest t g cfg now token w.lru claims hb valid in
    used-refused t g.blocked cfg now later token w.lru claims parser valid claims' (
      subst (λ l. validate_admin_token t false cfg later token l ≡ ok claims') blocked
        (subst (λ b. validate_admin_token t b cfg later token after.lru ≡ ok claims') hf
          (subst (λ x. validate_admin_token t f.blocked cfg later x after.lru ≡ ok claims') sent
            seen)))
