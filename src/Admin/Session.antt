-- ===== src/Admin/Session.antt =====
-- Login, Refresh and Logout of internal/admin/admin.go.
use tradecast.Prelude.{
  [], Option, none, some, Text, codes, is_empty, Json, unmarshal, Result, ok, err, if◌then◌else◌,
}
use tradecast.Types.{Uuid, Nanos}
use tradecast.Config.{AuthConfig}
use tradecast.Platform.{Platform}
use tradecast.World.{World}
use tradecast.Cache.{Lru}
use tradecast.Auth.Jwt.{Tokens, TokenError, admin_login, refresh_admin_token, revoke_admin_token}
use tradecast.Auth.Jwt
use tradecast.Admin.{Reply, replied, failed, with_body}

pub record Credentials : Type 0 where
  pub username : Text
  pub password : Text

abbrev pub logged_in : Result TokenError (Text × Text) → Reply (Text × Text)
logged_in (err _) = failed 401 (codes "invalid credentials")
logged_in (ok tokens) = replied 200 tokens

-- The access token and the refresh token.
unfoldable pub login :
    Platform
    → Tokens
    → AuthConfig
    → Nanos
    → Uuid
    → Uuid
    → Json Credentials
    → World
    → Reply (Text × Text) × World
login p t cfg now id id' body w =
    with_body (unmarshal body) w
      (λ req. (logged_in (admin_login p t cfg now id id' req.username req.password), w))

abbrev pub refreshed : World → Result TokenError Text × Lru → Reply Text × World
refreshed w (err _, lru) =
    (failed 401 (codes "invalid or expired refresh token"), record w { lru = lru })
refreshed w (ok access, lru) = (replied 200 access, record w { lru = lru })

unfoldable pub refresh :
    Platform
    → Tokens
    → Jwt.Faults
    → AuthConfig
    → Nanos
    → Uuid
    → Json Text
    → World
    → Reply Text × World
refresh p t f cfg now id body w =
    with_body (unmarshal body) w
      (λ token. refreshed w (refresh_admin_token p t f cfg now id token w.lru))

-- A body that does not decode leaves the field empty.
abbrev pub token_or_empty : Option Text → Text
token_or_empty none = []
token_or_empty (some token) = token

-- An error of RevokeAdminToken is dropped.
unfoldable pub logout :
    Tokens → Jwt.Faults → AuthConfig → Nanos → Json Text → World → Reply Unit × World
logout t f cfg now body w =
    let token = token_or_empty (unmarshal body) in
    let revoked = record w { lru = (revoke_admin_token t f cfg now token w.lru).1 } in
    (replied 200 tt, if is_empty token then w else revoked)
