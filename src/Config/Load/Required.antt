-- ===== src/Config/Load/Required.antt =====
-- The variables that Load of internal/config/config.go requires.
use tradecast.Prelude.{
  ◌≡◌, ◌⊎◌, inl, inr, refl, true, false, Bool, Option, none, some, Option-cases, List, [], ◌∷◌,
  Text, codes, is_empty, any, arith,
}
use tradecast.Platform.{Platform}
use tradecast.Config.Load.{
  ◌>>=◌, Environment, AuthSettings, PostgresConfig, Settings, must_env, postgres_config,
  auth_settings, load,
}

abbrev pub required_for_auth : List Text
required_for_auth =
    codes "SIGNAL_HMAC_SECRET"
    ∷ codes "JWT_SECRET"
    ∷ codes "ADMIN_USERNAME"
    ∷ codes "ADMIN_PASSWORD_HASH"
    ∷ []

abbrev pub required : List Text
required = codes "POSTGRES_DSN" ∷ required_for_auth

-- Some variable is not set.
abbrev pub lacks : Environment → List Text → Bool
lacks env keys = any (λ key. is_empty (env key)) keys

-- No secret and no name is empty.
abbrev pub HasSecrets : AuthSettings → Type 0
HasSecrets a =
    (is_empty a.signal_hmac_secret ≡ false)
    × (is_empty a.jwt_secret ≡ false)
    × (is_empty a.admin_username ≡ false)
    × (is_empty a.admin_password_hash ≡ false)

must_env-some : (env : Environment) (key v : Text) → must_env env key ≡ some v → is_empty v ≡ false
unfolding must_env
must_env-some env key v h = ground (arith, h)

must_env-none :
    (env : Environment) (key : Text) → must_env env key ≡ none → is_empty (env key) ≡ true
unfolding must_env
must_env-none env key h = ground (arith, h)

bind-some :
    {A B : Type 0} (o : Option A) (f : A → Option B) (b : B)
    → (o >>= f) ≡ some b
    → (a : A) × (o ≡ some a) × (f a ≡ some b)
bind-some none f b h = absurd (ground (arith, h))
bind-some (some a) f b h = (a, refl, h)

bind-none :
    {A B : Type 0} (o : Option A) (f : A → Option B)
    → (o >>= f) ≡ none
    → (o ≡ none) ⊎ ((a : A) × (o ≡ some a) × (f a ≡ none))
bind-none none f h = inl refl
bind-none (some a) f h = inr (a, refl, h)

postgres_config-some :
    (env : Environment) (c : PostgresConfig) → postgres_config env ≡ some c → is_empty c.dsn ≡ false
unfolding postgres_config
postgres_config-some env c h =
    let (dsn, read, made) = bind-some _ _ c h in
    let full = must_env-some env (codes "POSTGRES_DSN") dsn read in ground (arith, made, full)

auth_settings-some :
    (p : Platform) (env : Environment) (a : AuthSettings)
    → auth_settings p env ≡ some a
    → HasSecrets a
unfolding auth_settings
auth_settings-some p env a h =
    let (hmac, read_hmac, h1) = bind-some (must_env env (codes "SIGNAL_HMAC_SECRET")) _ a h in
    let (jwt, read_jwt, h2) = bind-some (must_env env (codes "JWT_SECRET")) _ a h1 in
    let (username, read_username, h3) = bind-some (must_env env (codes "ADMIN_USERNAME")) _ a h2 in
    let (hash, read_hash, made) = bind-some (must_env env (codes "ADMIN_PASSWORD_HASH")) _ a h3 in
    ground (
      arith,
      made,
      must_env-some env (codes "SIGNAL_HMAC_SECRET") hmac read_hmac,
      must_env-some env (codes "JWT_SECRET") jwt read_jwt,
      must_env-some env (codes "ADMIN_USERNAME") username read_username,
      must_env-some env (codes "ADMIN_PASSWORD_HASH") hash read_hash,
    )

auth_settings-none :
    (p : Platform) (env : Environment)
    → auth_settings p env ≡ none
    → lacks env required_for_auth ≡ true
unfolding auth_settings any
auth_settings-none p env h = elim (bind-none _ _ h) [
  | inl q ↦ ground (arith, must_env-none env (codes "SIGNAL_HMAC_SECRET") q)
  | inr (x, _, h1) ↦ elim (bind-none _ _ h1) [
    | inl q ↦ ground (arith, must_env-none env (codes "JWT_SECRET") q)
    | inr (y, _, h2) ↦ elim (bind-none _ _ h2) [
      | inl q ↦ ground (arith, must_env-none env (codes "ADMIN_USERNAME") q)
      | inr (z, _, h3) ↦ elim (bind-none _ _ h3) [
        | inl q ↦ ground (arith, must_env-none env (codes "ADMIN_PASSWORD_HASH") q)
        | inr (u, _, made) ↦ absurd (ground (arith, made))
      ]
    ]
  ]
]

postgres_config-none :
    (env : Environment) → postgres_config env ≡ none → is_empty (env (codes "POSTGRES_DSN")) ≡ true
unfolding postgres_config
postgres_config-none env h = elim (bind-none _ _ h) [
  | inl q ↦ must_env-none env (codes "POSTGRES_DSN") q
  | inr (x, _, made) ↦ absurd (ground (arith, made))
]

load-some :
    (p : Platform) (env : Environment) (s : Settings)
    → load p env ≡ some s
    → HasSecrets s.auth × (is_empty s.postgres.dsn ≡ false)
unfolding load
load-some p env s h =
    let (c, read, rest) = bind-some _ _ s h in
    let (a, got, made) = bind-some _ _ s rest in
    let dsn = postgres_config-some env c read in
    let secrets = auth_settings-some p env a got in ground (arith, made, dsn, secrets)

load-none : (p : Platform) (env : Environment) → load p env ≡ none → lacks env required ≡ true
unfolding load any
load-none p env h = elim (bind-none _ _ h) [
  | inl q ↦ ground (arith, postgres_config-none env q)
  | inr (c, _, rest) ↦ elim (bind-none _ _ rest) [
    | inl q ↦ ground (arith, auth_settings-none p env q)
    | inr (a, _, made) ↦ absurd (ground (arith, made))
  ]
]

-- Whatever the environment: Load returns settings in which the address of the database, the two
-- secrets and the admin's name and password hash are not empty, or it panics, and then one of the
-- five variables for them is not set.
pub load-required :
    (p : Platform) (env : Environment)
    → ((s : Settings) × (load p env ≡ some s)
        × HasSecrets s.auth
        × (is_empty s.postgres.dsn ≡ false))
      ⊎ ((load p env ≡ none) × (lacks env required ≡ true))
load-required p env = elim (Option-cases (load p env)) [
  | inl q ↦ inr (q, load-none p env q)
  | inr (s, q) ↦ let full = load-some p env s q in inl (s, q, full.0, full.1)
]
