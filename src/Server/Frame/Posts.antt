-- ===== src/Server/Frame/Posts.antt =====
-- A request to the server of cmd/server/main.go is one of POST /signal, or leaves the signals and the
-- jobs alone.
use tradecast.Prelude.{
  ◌≡◌, refl, ap, ◌∙◌, ◌⊎◌, ◌&&◌, inl, inr, Bool, true, false, Bool-cases, Option, some,
  Option-cases, List, [], ◌∷◌, Text, codes, text_eq, text_eq_iff, arith, if◌then◌else◌,
}
use tradecast.Config.{AuthConfig}
use tradecast.Platform.{Platform}
use tradecast.World.{World}
use tradecast.Auth.Jwt.{Tokens, Access, AdminClaims}
use tradecast.Auth.Middleware.{Answer}
use tradecast.Auth.Request.{Request}
use tradecast.Server.{
  Method, Segment, literal, wildcard, Guard, unguarded, with_jwt, with_key, Endpoint, Route, routes,
  takes, match_path, lookup, Served, runs, after_jwt, after_key, guarded, dispatch, serve,
}
use tradecast.Server.Respond.{
  BodyOf, ReplyOf, Http, Context, env_of, request_of, run, handle_served, respond,
}
use tradecast.Server.Guarded.{fallback-runs}
use tradecast.Signal.{receive}
use tradecast.Server.Frame.{Keeps, Keeps-trans}
use tradecast.Server.Frame.Run.{run-Keeps, serve-Keeps}

Endpoint-discrete : Discrete Endpoint
Endpoint-discrete = hlevel

is_receive : Endpoint → Bool
is_receive Endpoint.receive_signal = true
is_receive _ = false

is_post : Method → Bool
is_post Method.post = true
is_post _ = false

-- the pattern of Receive
is_signal : List Segment → Bool
is_signal (literal t ∷ []) = text_eq t (codes "signal")
is_signal _ = false

all_posted : List Route → Bool
all_posted [] = true
all_posted (r ∷ rs) =
    (if is_receive r.endpoint then is_post r.method && is_signal r.pattern else true)
    && all_posted rs

routes_posted : all_posted routes ≡ true
unfolding all_posted is_receive is_post is_signal text_eq
routes_posted = refl

-- POST /signal
abbrev pub IsPost : Method → List Text → Type 0
IsPost m path = (m ≡ Method.post) × (path ≡ codes "signal" ∷ [])

matched-signal :
    (pattern : List Segment) (path values : List Text)
    → is_signal pattern ≡ true
    → match_path pattern path ≡ some values
    → path ≡ codes "signal" ∷ []
unfolding is_signal match_path
matched-signal (literal t ∷ []) (s ∷ []) values h q =
    ground (arith, h, q, text_eq_iff t s, text_eq_iff t (codes "signal"))
matched-signal (literal t ∷ []) (s ∷ s' ∷ path) values h q = absurd (ground (arith, h, q))
matched-signal (literal t ∷ []) [] values h q = absurd (ground (arith, h, q))
matched-signal (literal t ∷ x ∷ pattern) path values h q = absurd (ground (arith, h))
matched-signal (wildcard ∷ pattern) path values h q = absurd (ground (arith, h))
matched-signal [] path values h q = absurd (ground (arith, h))

taken-post : (m m' : Method) → is_post m ≡ true → takes m m' ≡ true → m' ≡ Method.post
unfolding is_post takes
taken-post m m' h q = ground (arith, h, q)

lookup-receive :
    (rs : List Route) (m : Method) (path : List Text) (found : Route) (values : List Text)
    → all_posted rs ≡ true
    → lookup rs m path ≡ some (found, values)
    → found.endpoint ≡ Endpoint.receive_signal
    → IsPost m path
unfolding all_posted lookup is_receive
lookup-receive [] m path found values h q k = absurd (ground (arith, q))
lookup-receive (r ∷ rs) m path found values h q k = elim (Bool-cases (takes r.method m)) [
  | inr other ↦
      lookup-receive rs m path found values (ground (arith, h)) (ground (arith, q, other)) k
  | inl taken ↦ elim (Option-cases (match_path r.pattern path)) [
    | inl miss ↦
        lookup-receive rs m path found values (ground (arith, h)) (ground (arith, q, taken, miss)) k
    | inr (vs, hit) ↦
        let same : r ≡ found = ground (arith, q, taken, hit) in
        let receives : r.endpoint ≡ Endpoint.receive_signal = ap (λ x. x.endpoint) same ∙ k in
        let posted : (is_post r.method && is_signal r.pattern) ≡ true =
          ground (arith, h, receives) in
        (
          taken-post r.method m (ground (arith, posted)) taken,
          matched-signal r.pattern path vs (ground (arith, posted)) hit,
        )
  ]
]

after_jwt-endpoint :
    (e e' : Endpoint) (values values' : List Text) (c : Option AdminClaims) (a : Access)
    → after_jwt e values a ≡ runs e' values' c
    → e ≡ e'
after_jwt-endpoint e e' values values' c a q = ground (arith, q)

after_key-endpoint :
    (e e' : Endpoint) (values values' : List Text) (c : Option AdminClaims) (a : Answer)
    → after_key e values a ≡ runs e' values' c
    → e ≡ e'
after_key-endpoint e e' values values' c a q = ground (arith, q)

module _ (p : Platform) (t : Tokens) (cfg : AuthConfig) (x : Context) (h : Http) where
  -- The request ran Receive, on a world with the signals and the jobs of `w`.
  pub record IsReceived (w w' : World) : Type 0 where
    pub posted : IsPost h.method h.path
    pub before : World
    pub kept : Keeps w before
    pub result : w' ≡ (receive p x.signal cfg (env_of x) (request_of h) before).1

  guarded-runs :
      (g : Guard) (e e' : Endpoint) (values values' : List Text) (r : Request) (w : World)
      (c : Option AdminClaims)
      → (guarded p t x.served cfg x.now x.other_id g e values r w).0 ≡ runs e' values' c
      → e ≡ e'
  unfolding guarded
  guarded-runs unguarded e e' values values' r w c q = ground (arith, q)
  guarded-runs with_jwt e e' values values' r w c q = after_jwt-endpoint e e' values values' c _ q
  guarded-runs (with_key scope) e e' values values' r w c q =
      after_key-endpoint e e' values values' c _ q

  dispatch-receive :
      (m : Method) (path values : List Text) (r : Request) (w : World) (c : Option AdminClaims)
      → (dispatch p t x.served cfg x.now x.other_id m path r w).0
        ≡ runs Endpoint.receive_signal values c
      → IsPost m path
  unfolding dispatch
  dispatch-receive m path values r w c q = elim (Option-cases (lookup routes m path)) [
    | inl k ↦ absurd (fallback-runs m path Endpoint.receive_signal values c (rw (k, dispatch) at q))
    | inr ((found, vs), k) ↦ lookup-receive routes m path found vs routes_posted k (
        guarded-runs found.guard found.endpoint Endpoint.receive_signal vs values r w c
          (rw (k, dispatch) at q))
  ]

  serve-receive :
      (m : Method) (path values : List Text) (r : Request) (w : World) (c : Option AdminClaims)
      → (serve p t x.served cfg x.now x.other_id m path r w).0
        ≡ runs Endpoint.receive_signal values c
      → IsPost m path
  unfolding serve
  serve-receive Method.options path values r w c q = absurd (ground (arith, q))
  serve-receive Method.get path values r w c q = dispatch-receive Method.get path values r w c q
  serve-receive Method.head path values r w c q = dispatch-receive Method.head path values r w c q
  serve-receive Method.post path values r w c q = dispatch-receive Method.post path values r w c q
  serve-receive Method.patch path values r w c q = dispatch-receive Method.patch path values r w c q
  serve-receive Method.delete path values r w c q =
      dispatch-receive Method.delete path values r w c q
  serve-receive Method.other_method path values r w c q =
      dispatch-receive Method.other_method path values r w c q

  handle_served-cases :
      (w : World) (out : Served × World)
      → Keeps w out.1
      → ((values : List Text) (c : Option AdminClaims)
          → out.0 ≡ runs Endpoint.receive_signal values c
          → IsPost h.method h.path)
      → Keeps w (handle_served p t cfg x h out).1 ⊎ IsReceived w (handle_served p t cfg x h out).1
  unfolding handle_served run BodyOf ReplyOf
  handle_served-cases w (runs e values c, w') k post =
      elim (Endpoint-discrete e Endpoint.receive_signal) [
        | yes same ↦ rw same (
            inr (record {
              posted = post values c (ap (λ e'. runs e' values c) same);
              before = w';
              kept = k;
              result = refl;
            }))
        | no other ↦
            let after = (run p t cfg x h values w' e).1 in
            inl (Keeps-trans w w' after k (run-Keeps p t cfg x h values w' e other))
      ]
  handle_served-cases w (Served.preflight, w') k post = inl k
  handle_served-cases w (Served.redirected, w') k post = inl k
  handle_served-cases w (Served.not_found, w') k post = inl k
  handle_served-cases w (Served.not_allowed, w') k post = inl k
  handle_served-cases w (Served.unauthorized, w') k post = inl k
  handle_served-cases w (Served.key_refused a, w') k post = inl k

  -- Whatever the request and whatever fails: either the signals, the queues, the lists of jobs in
  -- work, the dead letters and the latest signals are all as before, or the request was one of
  -- POST /signal, and Receive ran on a world where they are.
  pub respond-cases :
      (w : World) → Keeps w (respond p t cfg x h w).1 ⊎ IsReceived w (respond p t cfg x h w).1
  unfolding respond
  respond-cases w =
      handle_served-cases w _ (serve-Keeps p t cfg x h h.method h.path h.headers w)
        (λ values c q. serve-receive h.method h.path values h.headers w c q)
