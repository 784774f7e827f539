-- ===== src/Auth/Jwt/Revocation.antt =====
-- What becomes of a token after it was revoked or used for a refresh.
use tradecast.Prelude.{
  ◌≡◌, ◌≢◌, ◌<◌, refl, subst, false, true, Bool, Option, none, some, Text, text_eq_refl, is_empty,
  Fault, Result, ok, err, arith, Result-cases, if◌then◌else◌, inl, inr,
}
use tradecast.Types.{Uuid, Nanos}
use tradecast.Config.{AuthConfig}
use tradecast.Platform.{Platform}
use tradecast.Cache.{Lru}
use tradecast.Cache.Keys.{block_jwt, is_jwt_blocked}
use tradecast.Auth.Jwt.{
  AdminClaims, Tokens, Faults, missing_header, refused, token_revoked, check_claims,
  validate_admin_token, block_rest, blocked_or, refresh_claims, refresh_admin_token, revoke_claims,
  revoke_admin_token, jwt_middleware,
}

-- What jwt.ParseWithClaims promises: a token always has the same claims, and is refused from the
-- time on at which it expires.
pub record IsParser (t : Tokens) : Type 0 where
  pub stable :
      (now later : Nanos) (secret token : Text) (c c' : AdminClaims)
      → t.parse now secret token ≡ some c
      → t.parse later secret token ≡ some c'
      → c ≡ c'
  pub expires :
      (now : Nanos) (secret token : Text) (c : AdminClaims)
      → t.parse now secret token ≡ some c
      → now < c.expires_at

-- A token is blocked until it expires.
abbrev IsBlocked : AdminClaims → Lru → Type 0
IsBlocked claims c =
    (later : Nanos) → later < claims.expires_at → is_jwt_blocked false later claims.jti c ≡ ok true

block_rest-IsBlocked :
    (now : Nanos) (claims : AdminClaims) (c : Lru)
    → now < claims.expires_at
    → IsBlocked claims (block_rest false now claims c).1
unfolding block_rest block_jwt is_jwt_blocked
block_rest-IsBlocked now claims c live later soon =
    ground (arith, live, soon, text_eq_refl claims.jti)

check_claims-parsed :
    (fault : Bool) (now : Nanos) (c : Lru) (o : Option AdminClaims) (claims : AdminClaims)
    → check_claims fault now c o ≡ ok claims
    → o ≡ some claims
unfolding check_claims
check_claims-parsed fault now c none claims h = ground (arith, h)
check_claims-parsed fault now c (some x) claims h = ground (arith, h)

check_claims-blocked :
    (now : Nanos) (c : Lru) (claims : AdminClaims)
    → is_jwt_blocked false now claims.jti c ≡ ok true
    → check_claims false now c (some claims) ≡ err token_revoked
unfolding check_claims
check_claims-blocked now c claims h = rw h refl

validate-parsed :
    (t : Tokens) (cfg : AuthConfig) (fault : Bool) (now : Nanos) (token : Text) (c : Lru)
    (claims : AdminClaims)
    → validate_admin_token t fault cfg now token c ≡ ok claims
    → t.parse now cfg.jwt_secret token ≡ some claims
unfolding validate_admin_token
validate-parsed t cfg fault now token c claims h = check_claims-parsed fault now c _ claims h

blocked-refused :
    (t : Tokens) (cfg : AuthConfig) (now later : Nanos) (token : Text) (c : Lru)
    (claims : AdminClaims)
    → IsParser t
    → t.parse now cfg.jwt_secret token ≡ some claims
    → IsBlocked claims c
    → (claims' : AdminClaims) → validate_admin_token t false cfg later token c ≢ ok claims'
unfolding validate_admin_token
blocked-refused t cfg now later token c claims parser parsed blocked claims' h =
    let again = check_claims-parsed false later c _ claims' h in
    let same = parser.stable now later cfg.jwt_secret token claims claims' parsed again in
    let soon = parser.expires later cfg.jwt_secret token claims' again in
    let marked = subst (λ x. IsBlocked x c) same blocked later soon in
    cc (h, again, check_claims-blocked later c claims' marked)

blocked_or_lem : (r : Result Fault Unit × Lru) → (blocked_or r).1 ≡ r.1
blocked_or_lem (ok u, c) = refl
blocked_or_lem (err e, c) = refl

pub revoke-block_rest :
    (t : Tokens) (f : Faults) (cfg : AuthConfig) (now : Nanos) (token : Text) (c : Lru)
    (claims : AdminClaims)
    → f.block ≡ false
    → validate_admin_token t f.blocked cfg now token c ≡ ok claims
    → (revoke_admin_token t f cfg now token c).1 ≡ (block_rest false now claims c).1
unfolding revoke_admin_token revoke_claims
revoke-block_rest t f cfg now token c claims hb valid = rw (valid, hb) (blocked_or_lem _)

refresh-block_rest :
    (p : Platform) (t : Tokens) (f : Faults) (cfg : AuthConfig) (now : Nanos) (id : Uuid)
    (token : Text) (c : Lru) (claims : AdminClaims)
    → f.block ≡ false
    → validate_admin_token t f.blocked cfg now token c ≡ ok claims
    → (refresh_admin_token p t f cfg now id token c).1 ≡ (block_rest false now claims c).1
unfolding refresh_admin_token refresh_claims
refresh-block_rest p t f cfg now id token c claims hb valid = rw (valid, hb) refl

-- After BlockJWT no time accepts the token.
pub used-refused :
    (t : Tokens) (fault : Bool) (cfg : AuthConfig) (now later : Nanos) (token : Text) (c : Lru)
    (claims : AdminClaims)
    → IsParser t
    → validate_admin_token t fault cfg now token c ≡ ok claims
    → (claims' : AdminClaims)
    → validate_admin_token t false cfg later token (block_rest false now claims c).1 ≢ ok claims'
used-refused t fault cfg now later token c claims parser valid =
    let parsed = validate-parsed t cfg fault now token c claims valid in
    blocked-refused t cfg now later token _ claims parser parsed
      (block_rest-IsBlocked now claims c (parser.expires now cfg.jwt_secret token claims parsed))

middleware-refused :
    (t : Tokens) (cfg : AuthConfig) (now : Nanos) (token : Text) (c : Lru)
    → ((claims : AdminClaims) → validate_admin_token t false cfg now token c ≢ ok claims)
    → jwt_middleware t false cfg now token c ≡ (if is_empty token then missing_header else refused)
unfolding jwt_middleware
middleware-refused t cfg now token c h =
    elim (Result-cases (validate_admin_token t false cfg now token c)) [
      | inl (claims, e) ↦ absurd (h claims e)
      | inr (x, e) ↦ rw e refl
    ]

-- Let the parser give a token the same claims at all times and none once it has expired. A token
-- that RevokeAdminToken finds valid and blocks without a failure is refused by the JWT middleware
-- at any other time, if the cache has not changed since and its check does not fail.
pub revoked_refused :
    (t : Tokens) (f : Faults) (cfg : AuthConfig) (now later : Nanos) (token : Text) (c : Lru)
    (claims : AdminClaims)
    → IsParser t
    → f.block ≡ false
    → validate_admin_token t f.blocked cfg now token c ≡ ok claims
    → jwt_middleware t false cfg later token (revoke_admin_token t f cfg now token c).1
      ≡ (if is_empty token then missing_header else refused)
revoked_refused t f cfg now later token c claims parser hb valid =
    rw (revoke-block_rest t f cfg now token c claims hb valid) (
      middleware-refused t cfg later token _
        (used-refused t f.blocked cfg now later token c claims parser valid))

refresh-valid :
    (p : Platform) (t : Tokens) (f : Faults) (cfg : AuthConfig) (now : Nanos) (id : Uuid)
    (token : Text) (c : Lru) (issued : Text)
    → (refresh_admin_token p t f cfg now id token c).0 ≡ ok issued
    → (claims : AdminClaims) × (validate_admin_token t f.blocked cfg now token c ≡ ok claims)
unfolding refresh_admin_token refresh_claims
refresh-valid p t f cfg now id token c issued h =
    elim (Result-cases (validate_admin_token t f.blocked cfg now token c)) [
      | inl (claims, e) ↦ (claims, e)
      | inr (x, e) ↦ absurd (ground (arith, h, e))
    ]

-- Let the parser give a token the same claims at all times and none once it has expired. A token
-- that RefreshAdminToken finds valid is refused by the next RefreshAdminToken, if the first call's
-- BlockJWT and the second call's check do not fail and the cache has not changed in between: a
-- refresh token serves once.
pub refresh_once :
    (p : Platform) (t : Tokens) (f g : Faults) (cfg : AuthConfig) (now later : Nanos)
    (id id' : Uuid) (token : Text) (c : Lru) (claims : AdminClaims)
    → IsParser t
    → f.block ≡ false
    → g.blocked ≡ false
    → validate_admin_token t f.blocked cfg now token c ≡ ok claims
    → (issued : Text)
    → (refresh_admin_token p t g cfg later id' token
        (refresh_admin_token p t f cfg now id token c).1).0
      ≢ ok issued
refresh_once p t f g cfg now later id id' token c claims parser hb hg valid issued again =
    let (claims', h) = refresh-valid p t g cfg later id' token _ issued again in
    used-refused t f.blocked cfg now later token c claims parser valid claims' (
      subst
        (λ b.
          validate_admin_token t b cfg later token (block_rest false now claims c).1 ≡ ok claims')
        hg
        (subst (λ l. validate_admin_token t g.blocked cfg later token l ≡ ok claims')
          (refresh-block_rest p t f cfg now id token c claims hb valid) h))
