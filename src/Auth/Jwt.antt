-- ===== src/Auth/Jwt.antt =====
-- The admin's tokens of internal/auth/auth.go. Signing and parsing of tokens and the comparison of
-- passwords are parameters.
pub mod Revocation
pub mod Kinds
mod Tests
use tradecast.Prelude.{
  ◌+◌, ◌-◌, ◌++◌, ltb, not, Bool, Option, none, some, Text, codes, text_eq, is_empty, Result, ok,
  err, Fault, if◌then◌else◌,
}
use tradecast.Types.{Uuid, Nanos}
use tradecast.Config.{AuthConfig}
use tradecast.Platform.{Platform}
use tradecast.Cache.{Lru}
use tradecast.Cache.Keys.{block_jwt, is_jwt_blocked}

pub record AdminClaims : Type 0 where
  pub username : Text
  pub jti : Text
  pub subject : Text
  pub issued_at : Nanos
  pub expires_at : Nanos
  pub issuer : Text
  pub audience : Text

-- The packages jwt and bcrypt: `sign secret claims`, `parse now secret token`, the precision of
-- jwt.NewNumericDate, and `matches hash password`.
pub record Tokens : Type 0 where
  pub sign : Text → AdminClaims → Option Text
  pub parse : Nanos → Text → Text → Option AdminClaims
  pub numeric_date : Nanos → Nanos
  pub matches : Text → Text → Bool

pub data TokenError : Type 0 where
  invalid_credentials signing_failed invalid_token token_revoked block_failed : TokenError

abbrev signed : Option Text → Result TokenError Text
signed none = err signing_failed
signed (some token) = ok token

abbrev pub claims_for : Platform → Tokens → Nanos → Uuid → Text → Nanos → Text → AdminClaims
claims_for p t now id username ttl token_type = record {
  username = username;
  jti = p.uuid_text id;
  subject = username;
  issued_at = t.numeric_date now;
  expires_at = t.numeric_date (now + ttl);
  issuer = codes "mt4signal";
  audience = codes "mt4signal-admin-" ++ token_type;
}

-- `id` is the identifier that uuid.New gives.
unfoldable pub make_token :
    Platform → Tokens → AuthConfig → Nanos → Uuid → Text → Nanos → Text → Result TokenError Text
make_token p t cfg now id username ttl token_type =
    signed (t.sign cfg.jwt_secret (claims_for p t now id username ttl token_type))

-- both tokens, or the first error
abbrev both : Result TokenError Text → Result TokenError Text → Result TokenError (Text × Text)
both (err e) r = err e
both (ok access) (err e) = err e
both (ok access) (ok refresh) = ok (access, refresh)

-- The access token and the refresh token.
unfoldable pub admin_login :
    Platform
    → Tokens
    → AuthConfig
    → Nanos
    → Uuid
    → Uuid
    → Text
    → Text
    → Result TokenError (Text × Text)
admin_login p t cfg now id id' username password =
    if not (text_eq username cfg.admin_username)
    then err invalid_credentials
    else if not (t.matches cfg.admin_password_hash password)
    then err invalid_credentials
    else both (make_token p t cfg now id username cfg.jwt_access_token_ttl (codes "access"))
        (make_token p t cfg now id' username cfg.jwt_refresh_token_ttl (codes "refresh"))

-- an error of the cache reads as not blocked
abbrev is_blocked : Result Fault Bool → Bool
is_blocked (err e) = Bool.false
is_blocked (ok b) = b

-- what follows the parsing of the token
unfoldable pub check_claims :
    Bool → Nanos → Lru → Option AdminClaims → Result TokenError AdminClaims
check_claims fault now c none = err invalid_token
check_claims fault now c (some claims) =
    if is_blocked (is_jwt_blocked fault now claims.jti c) then err token_revoked else ok claims

unfoldable pub validate_admin_token :
    Tokens → Bool → AuthConfig → Nanos → Text → Lru → Result TokenError AdminClaims
validate_admin_token t fault cfg now token c =
    check_claims fault now c (t.parse now cfg.jwt_secret token)

-- Which calls to the cache fail.
pub record Faults : Type 0 where
  pub blocked : Bool
  pub block : Bool

-- BlockJWT for the rest of the token's life, if there is any
unfoldable pub block_rest : Bool → Nanos → AdminClaims → Lru → Result Fault Unit × Lru
block_rest fault now claims c =
    if ltb now claims.expires_at
    then block_jwt fault now claims.jti (claims.expires_at - now) c
    else (ok tt, c)

-- what follows the validation in RefreshAdminToken: an error of BlockJWT is dropped
unfoldable pub refresh_claims :
    Platform
    → Tokens
    → Faults
    → AuthConfig
    → Nanos
    → Uuid
    → Lru
    → Result TokenError AdminClaims
    → Result TokenError Text × Lru
refresh_claims p t f cfg now id c (err e) = (err e, c)
refresh_claims p t f cfg now id c (ok claims) = (
  make_token p t cfg now id claims.username cfg.jwt_access_token_ttl (codes "access"),
  (block_rest f.block now claims c).1,
)

unfoldable pub refresh_admin_token :
    Platform
    → Tokens
    → Faults
    → AuthConfig
    → Nanos
    → Uuid
    → Text
    → Lru
    → Result TokenError Text × Lru
refresh_admin_token p t f cfg now id token c =
    refresh_claims p t f cfg now id c (validate_admin_token t f.blocked cfg now token c)

-- the error of BlockJWT
abbrev pub blocked_or : Result Fault Unit × Lru → Result TokenError Unit × Lru
blocked_or (ok _, c) = (ok tt, c)
blocked_or (err e, c) = (err block_failed, c)

-- what follows the validation in RevokeAdminToken
unfoldable pub revoke_claims :
    Faults → Nanos → Lru → Result TokenError AdminClaims → Result TokenError Unit × Lru
revoke_claims f now c (err e) = (err e, c)
revoke_claims f now c (ok claims) = blocked_or (block_rest f.block now claims c)

unfoldable pub revoke_admin_token :
    Tokens → Faults → AuthConfig → Nanos → Text → Lru → Result TokenError Unit × Lru
revoke_admin_token t f cfg now token c =
    revoke_claims f now c (validate_admin_token t f.blocked cfg now token c)

pub data Access : Type 0 where
  missing_header refused : Access
  admitted : AdminClaims → Access

-- `token` is what extractBearer returns.
unfoldable pub jwt_middleware : Tokens → Bool → AuthConfig → Nanos → Text → Lru → Access
jwt_middleware t fault cfg now token c =
    if is_empty token then missing_header else elim (validate_admin_token t fault cfg now token c) [
      | err e ↦ refused
      | ok claims ↦ admitted claims
    ]
