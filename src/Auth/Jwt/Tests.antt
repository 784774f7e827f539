-- ===== src/Auth/Jwt/Tests.antt =====
-- The theorems on the admin's tokens at concrete inputs.
use native.Mathlib.Decide.{ℕ_discrete}
use tradecast.Prelude.{
  ite, text_eq, ◌≡◌, ◌≢◌, ltb, false, true, refl, none, some, codes, ok, arith, if◌then◌else◌,
}
use tradecast.Cache.{empty_lru}
use tradecast.Cache.Keys.{is_jwt_blocked}
use tradecast.Samples.{toy_platform, auth_config}
use tradecast.Auth.Jwt.{
  AdminClaims, Tokens, Faults, validate_admin_token, check_claims, refresh_admin_token, admin_login,
  make_token, claims_for, admitted, jwt_middleware,
}
use tradecast.Auth.Jwt.Revocation.{IsParser, refresh_once}
use tradecast.Auth.Jwt.Kinds.{IsCodec, login-either}

abbrev claims : AdminClaims
claims = record {
  username = codes "admin";
  jti = codes "j";
  subject = codes "admin";
  issued_at = 0;
  expires_at = 1_000;
  issuer = codes "mt4signal";
  audience = codes "mt4signal-admin-refresh";
}

-- every text is a token for `claims`
abbrev tokens : Tokens
tokens = record {
  sign = λ secret c. some c.jti;
  parse = λ now secret token. if ltb now 1_000 then some claims else none;
  numeric_date = λ n. n;
  matches = λ hash password. true;
}

tokens-IsParser : IsParser tokens
tokens-IsParser = record {
  stable = λ now later secret token c c' h h'. ground (arith, h, h');
  expires = λ now secret token c h. ground (arith, h);
}

abbrev sound : Faults
sound = record { blocked = false; block = false }

fresh : validate_admin_token tokens false auth_config 5 (codes "t") empty_lru ≡ ok claims
unfolding validate_admin_token check_claims is_jwt_blocked
fresh = refl

refresh_once_example :
    (refresh_admin_token toy_platform tokens sound auth_config 6 2
      (codes "t")
      (refresh_admin_token toy_platform tokens sound auth_config 5 1 (codes "t") empty_lru).1).0
    ≢ ok (codes "j")
refresh_once_example =
    refresh_once toy_platform tokens sound sound auth_config 5 6 1 2 (codes "t") empty_lru claims
      tokens-IsParser refl refl fresh (codes "j")

AdminClaims-discrete : Discrete AdminClaims
AdminClaims-discrete = hlevel ℕ_discrete

-- the claims of the two tokens of a login at time 5
abbrev short : AdminClaims
short = record {
  username = codes "admin";
  jti = codes "7";
  subject = codes "admin";
  issued_at = 5;
  expires_at = 900_000_000_005;
  issuer = codes "mt4signal";
  audience = codes "mt4signal-admin-access";
}

abbrev long : AdminClaims
long = record short { expires_at = 604_800_000_000_005; audience = codes "mt4signal-admin-refresh" }

-- a package that can sign these two only
abbrev pair : Tokens
pair = record {
  sign = λ secret c.
      ite (AdminClaims-discrete c short) (some (codes "a"))
        (ite (AdminClaims-discrete c long) (some (codes "r")) none);
  parse = λ now secret token.
      if text_eq token (codes "a")
      then some short
      else if text_eq token (codes "r")
      then some long
      else none;
  numeric_date = λ n. n;
  matches = λ hash password. true;
}

pair-IsCodec : IsCodec pair
unfolding text_eq
pair-IsCodec now secret token c h soon = ground (arith, h)

logged_in :
    admin_login toy_platform pair auth_config 5 1 2 (codes "admin") (codes "pw")
    ≡ ok (codes "a", codes "r")
unfolding admin_login make_token text_eq AdminClaims-discrete ℕ_discrete
logged_in = refl

unblocked : is_jwt_blocked false 6 (codes "7") empty_lru ≡ ok false
unfolding is_jwt_blocked
unblocked = refl

login-either_example :
    (jwt_middleware pair false auth_config 6 (codes "r") empty_lru
      ≡ admitted (
          claims_for toy_platform pair 5 2
            (codes "admin")
            auth_config.jwt_refresh_token_ttl
            (codes "refresh")))
    × ((refresh_admin_token toy_platform pair sound auth_config 6 3 (codes "a") empty_lru).0
        ≡ make_token toy_platform pair auth_config 6 3
            (codes "admin")
            auth_config.jwt_access_token_ttl
            (codes "access"))
login-either_example =
    login-either toy_platform pair sound auth_config 5 6 1 2 3 (codes "admin") (codes "pw")
      (codes "a") (codes "r") empty_lru pair-IsCodec logged_in refl (omega arith) (omega arith)
      unblocked unblocked
