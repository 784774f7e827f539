-- ===== src/Server/Guarded.antt =====
-- The routes of cmd/server/main.go that need a token.
use tradecast.Prelude.{
  ◌≡◌, ◌≢◌, ap, sym, refl, ◌∙◌, Bool, true, false, Bool-cases, Option, some, Option-cases, inl, inr,
  List, [], ◌∷◌, Text, codes, text_eq, ok, Result-cases, arith, if◌then◌else◌, ◌&&◌,
}
use tradecast.Types.{Uuid, Nanos}
use tradecast.Config.{AuthConfig}
use tradecast.Platform.{Platform}
use tradecast.World.{World}
use tradecast.Auth.Jwt.{Tokens, AdminClaims, validate_admin_token, jwt_middleware}
use tradecast.Auth.Request.{Request, extract_bearer}
use tradecast.Server.{
  Method, Segment, literal, wildcard, Guard, unguarded, with_jwt, with_key, Endpoint, Route, routes,
  takes, match_path, lookup, runs, Faults, after_jwt, guarded, fallback, dispatch, serve,
}

is_jwt : Guard → Bool
is_jwt unguarded = false
is_jwt with_jwt = true
is_jwt (with_key scope) = false

-- A pattern that can match a path under "/admin/" stands behind the JWT middleware.
is_closed : List Segment → Guard → Bool
is_closed [] g = true
is_closed (wildcard ∷ pattern) g = is_jwt g
is_closed (literal t ∷ pattern) g = if text_eq t (codes "admin") then is_jwt g else true

pub all_closed : List Route → Bool
all_closed [] = true
all_closed (r ∷ rs) = is_closed r.pattern r.guard && all_closed rs

pub routes_closed : all_closed routes ≡ true
unfolding all_closed is_closed is_jwt text_eq
routes_closed = refl

jwt-only : (g : Guard) → is_jwt g ≡ true → g ≡ with_jwt
unfolding is_jwt
jwt-only unguarded h = absurd (ground (arith, h))
jwt-only with_jwt h = refl
jwt-only (with_key scope) h = absurd (ground (arith, h))

closed-matched :
    (pattern : List Segment) (g : Guard) (path values : List Text)
    → is_closed pattern g ≡ true
    → match_path pattern (codes "admin" ∷ path) ≡ some values
    → g ≡ with_jwt
unfolding is_closed match_path
closed-matched [] g path values h q = absurd (ground (arith, q))
closed-matched (wildcard ∷ pattern) g path values h q = jwt-only g h
closed-matched (literal t ∷ pattern) g path values h q =
    elim (Bool-cases (text_eq t (codes "admin"))) [
      | inl same ↦ jwt-only g (ground (arith, h, same))
      | inr other ↦ absurd (ground (arith, q, other))
    ]

pub lookup-guard :
    (rs : List Route) (m : Method) (path : List Text) (found : Route) (values : List Text)
    → all_closed rs ≡ true
    → lookup rs m (codes "admin" ∷ path) ≡ some (found, values)
    → found.guard ≡ with_jwt
unfolding all_closed lookup
lookup-guard [] m path found values h q = absurd (ground (arith, q))
lookup-guard (r ∷ rs) m path found values h q = elim (Bool-cases (takes r.method m)) [
  | inr other ↦ lookup-guard rs m path found values (ground (arith, h)) (ground (arith, q, other))
  | inl taken ↦ elim (Option-cases (match_path r.pattern (codes "admin" ∷ path))) [
    | inl miss ↦
        lookup-guard rs m path found values (ground (arith, h)) (ground (arith, q, taken, miss))
    | inr (vs, hit) ↦
        let same : r ≡ found = ground (arith, q, taken, hit) in
        ap (λ x. x.guard) (sym same)
        ∙ closed-matched r.pattern r.guard path vs (ground (arith, h)) hit
  ]
]

pub fallback-runs :
    (m : Method) (path : List Text) (e : Endpoint) (values : List Text) (c : Option AdminClaims)
    → fallback m path ≢ runs e values c
fallback-runs m path e values c = ground arith

-- The claims that a handler finds are those of a valid token.
abbrev pub IsLoggedIn :
    Tokens → Bool → AuthConfig → Nanos → Text → World → Option AdminClaims → Type 0
IsLoggedIn t fault cfg now token w c =
    (claims : AdminClaims) × (c ≡ some claims)
    × (validate_admin_token t fault cfg now token w.lru ≡ ok claims)

after_jwt-runs :
    (t : Tokens) (fault : Bool) (cfg : AuthConfig) (now : Nanos) (token : Text) (w : World)
    (e e' : Endpoint) (values values' : List Text) (c : Option AdminClaims)
    → after_jwt e values (jwt_middleware t fault cfg now token w.lru) ≡ runs e' values' c
    → IsLoggedIn t fault cfg now token w c
unfolding jwt_middleware
after_jwt-runs t fault cfg now token w e e' values values' c h =
    elim (Result-cases (validate_admin_token t fault cfg now token w.lru)) [
      | inl (claims, q) ↦ (claims, ground (arith, h, q), q)
      | inr (x, q) ↦ absurd (ground (arith, h, q))
    ]

module _ (p : Platform) (t : Tokens) (f : Faults) (cfg : AuthConfig) (now : Nanos) (id : Uuid)
    (r : Request) (w : World) (e : Endpoint) (values : List Text) (c : Option AdminClaims) where
  dispatch-admin :
      (m : Method) (path : List Text)
      → (dispatch p t f cfg now id m (codes "admin" ∷ path) r w).0 ≡ runs e values c
      → IsLoggedIn t f.blocked cfg now (extract_bearer r) w c
  unfolding dispatch guarded
  dispatch-admin m path h = elim (Option-cases (lookup routes m (codes "admin" ∷ path))) [
    | inl q ↦ absurd (fallback-runs m (codes "admin" ∷ path) e values c (rw (q, dispatch) at h))
    | inr ((found, vs), q) ↦
        let closed = lookup-guard routes m path found vs routes_closed q in
        let opened : (guarded p t f cfg now id found.guard found.endpoint vs r w).0
            ≡ runs e values c =
          (rw (q, dispatch) at h) in
        after_jwt-runs t f.blocked cfg now (extract_bearer r) w found.endpoint e vs values c
          (rw closed at opened)
  ]

  -- Whatever the method and the rest of the path: under "/admin/" the server lets a handler run only
  -- for a request whose bearer token ValidateAdminToken finds valid at that time, and hands the
  -- handler the claims of that token.
  pub serve-admin :
      (m : Method) (path : List Text)
      → (serve p t f cfg now id m (codes "admin" ∷ path) r w).0 ≡ runs e values c
      → IsLoggedIn t f.blocked cfg now (extract_bearer r) w c
  unfolding serve
  serve-admin Method.options path h = absurd (ground (arith, h))
  serve-admin Method.get path h = dispatch-admin Method.get path h
  serve-admin Method.head path h = dispatch-admin Method.head path h
  serve-admin Method.post path h = dispatch-admin Method.post path h
  serve-admin Method.patch path h = dispatch-admin Method.patch path h
  serve-admin Method.delete path h = dispatch-admin Method.delete path h
  serve-admin Method.other_method path h = dispatch-admin Method.other_method path h
