-- ===== src/Auth/Jwt/Kinds.antt =====
-- The two tokens of a login serve for each other: `AdminLogin`, `RefreshAdminToken` and
-- `JWTMiddleware` of internal/auth/auth.go.
use tradecast.Prelude.{
  ◌+◌, ◌<◌, ◌≡◌, refl, false, true, Bool, Option, none, some, Text, codes, text_eq, is_empty, not,
  Result, ok, err, arith, if◌then◌else◌,
}
use tradecast.Types.{Uuid, Nanos}
use tradecast.Config.{AuthConfig}
use tradecast.Platform.{Platform}
use tradecast.Cache.{Lru}
use tradecast.Cache.Keys.{is_jwt_blocked}
use tradecast.Auth.Jwt.{
  AdminClaims, Tokens, TokenError, Faults, invalid_credentials, admitted, signed, both, claims_for,
  make_token, admin_login, check_claims, validate_admin_token, refresh_claims, refresh_admin_token,
  jwt_middleware,
}

-- What the package jwt promises: a token that it signed parses to its claims until they expire.
abbrev pub IsCodec : Tokens → Type 0
IsCodec t =
    (now : Nanos) (secret token : Text) (c : AdminClaims)
    → t.sign secret c ≡ some token
    → now < c.expires_at
    → t.parse now secret token ≡ some c

signed-ok : (o : Option Text) (token : Text) → signed o ≡ ok token → o ≡ some token
signed-ok none token h = absurd (ground (arith, h))
signed-ok (some x) token h = ground (arith, h)

both-ok :
    (r s : Result TokenError Text) (access refresh : Text)
    → both r s ≡ ok (access, refresh)
    → (r ≡ ok access) × (s ≡ ok refresh)
both-ok (err e) s access refresh h = absurd (ground (arith, h))
both-ok (ok a) (err e) access refresh h = absurd (ground (arith, h))
both-ok (ok a) (ok b) access refresh h = (ground (arith, h), ground (arith, h))

guard-ok :
    (b : Bool) (r : Result TokenError (Text × Text)) (v : Text × Text)
    → (if not b then err invalid_credentials else r) ≡ ok v
    → r ≡ ok v
guard-ok true r v h = h
guard-ok false r v h = absurd (ground (arith, h))

module _ (p : Platform) (t : Tokens) (cfg : AuthConfig) (now : Nanos) (id id' : Uuid)
    (username : Text) where
  abbrev short_claims : AdminClaims
  short_claims = claims_for p t now id username cfg.jwt_access_token_ttl (codes "access")

  abbrev long_claims : AdminClaims
  long_claims = claims_for p t now id' username cfg.jwt_refresh_token_ttl (codes "refresh")

  login-signed :
      (password access refresh : Text)
      → admin_login p t cfg now id id' username password ≡ ok (access, refresh)
      → (t.sign cfg.jwt_secret short_claims ≡ some access)
        × (t.sign cfg.jwt_secret long_claims ≡ some refresh)
  unfolding admin_login make_token
  login-signed password access refresh h =
      let named = guard-ok (text_eq username cfg.admin_username) _ (access, refresh) h in
      let matched =
        guard-ok (t.matches cfg.admin_password_hash password) _ (access, refresh) named in
      let (first, second) = both-ok _ _ access refresh matched in
      (signed-ok _ access first, signed-ok _ refresh second)

  validate-signed :
      (fault : Bool) (later : Nanos) (token : Text) (c : Lru) (claims : AdminClaims)
      → IsCodec t
      → t.sign cfg.jwt_secret claims ≡ some token
      → later < claims.expires_at
      → is_jwt_blocked fault later claims.jti c ≡ ok false
      → validate_admin_token t fault cfg later token c ≡ ok claims
  unfolding validate_admin_token check_claims
  validate-signed fault later token c claims codec h soon free =
      rw (codec later cfg.jwt_secret token claims h soon, free) refl

-- After a login with a refresh token that is not empty, while neither token has expired or is
-- blocked, the refresh token opens the routes of the admin, as the access token is meant to, and the access token
-- yields a new access token, as the refresh token is meant to. `IsCodec` is what the package jwt
-- promises.
pub login-either :
    (p : Platform) (t : Tokens) (f : Faults) (cfg : AuthConfig) (now later : Nanos)
    (id id' new_id : Uuid) (username password access refresh : Text) (c : Lru)
    → IsCodec t
    → admin_login p t cfg now id id' username password ≡ ok (access, refresh)
    → is_empty refresh ≡ false
    → later < t.numeric_date (now + cfg.jwt_access_token_ttl)
    → later < t.numeric_date (now + cfg.jwt_refresh_token_ttl)
    → is_jwt_blocked f.blocked later (p.uuid_text id) c ≡ ok false
    → is_jwt_blocked f.blocked later (p.uuid_text id') c ≡ ok false
    → (jwt_middleware t f.blocked cfg later refresh c
        ≡ admitted (claims_for p t now id' username cfg.jwt_refresh_token_ttl (codes "refresh")))
      × ((refresh_admin_token p t f cfg later new_id access c).0
          ≡ make_token p t cfg later new_id username cfg.jwt_access_token_ttl (codes "access"))
unfolding jwt_middleware refresh_admin_token refresh_claims
login-either p t f cfg now later id id' new_id username password access refresh c codec h full soon
      soon' free free' =
    let (short, long) = login-signed p t cfg now id id' username password access refresh h in
    (
      rw
          (
            full,
            validate-signed p t cfg now id id' username f.blocked later refresh c _ codec long soon'
                free',
          )
          refl,
      rw
          (validate-signed p t cfg now id id' username f.blocked later access c _ codec short soon
            free)
          refl,
    )
