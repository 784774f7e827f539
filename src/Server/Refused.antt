-- ===== src/Server/Refused.antt =====
-- What a request without a token does to the server of cmd/server/main.go.
use tradecast.Prelude.{
  ◌≡◌, ◌≢◌, refl, sym, subst, inl, inr, Option, Option-cases, List, ◌∷◌, Text, codes, ok,
}
use tradecast.Types.{Uuid, Nanos}
use tradecast.Config.{AuthConfig}
use tradecast.Platform.{Platform}
use tradecast.World.{World}
use tradecast.Auth.Jwt.{Tokens, AdminClaims, validate_admin_token}
use tradecast.Auth.Request.{Request, extract_bearer}
use tradecast.Server.{Method, routes, lookup, Served, Faults, runs, guarded, dispatch, serve}
use tradecast.Server.Guarded.{lookup-guard, routes_closed, serve-admin}
use tradecast.Server.Respond.{Http, Context, Response, stopped, handle_served, respond}

module _ (p : Platform) (t : Tokens) (cfg : AuthConfig) where
  module _ (f : Faults) (now : Nanos) (id : Uuid) (r : Request) (w : World) where
    dispatch-admin_world :
        (m : Method) (path : List Text)
        → (dispatch p t f cfg now id m (codes "admin" ∷ path) r w).1 ≡ w
    unfolding dispatch guarded
    dispatch-admin_world m path = elim (Option-cases (lookup routes m (codes "admin" ∷ path))) [
      | inl q ↦ rw (q, dispatch) refl
      | inr ((found, vs), q) ↦
          rw (q, dispatch) (rw (lookup-guard routes m path found vs routes_closed q, guarded) refl)
    ]

    serve-admin_world :
        (m : Method) (path : List Text)
        → (serve p t f cfg now id m (codes "admin" ∷ path) r w).1 ≡ w
    unfolding serve
    serve-admin_world Method.options path = refl
    serve-admin_world Method.get path = dispatch-admin_world Method.get path
    serve-admin_world Method.head path = dispatch-admin_world Method.head path
    serve-admin_world Method.post path = dispatch-admin_world Method.post path
    serve-admin_world Method.patch path = dispatch-admin_world Method.patch path
    serve-admin_world Method.delete path = dispatch-admin_world Method.delete path
    serve-admin_world Method.other_method path = dispatch-admin_world Method.other_method path

  module _ (x : Context) (h : Http) where
    -- no handler ran, and the world is this one
    abbrev IsStopped : World → Response × World → Type 0
    IsStopped w out = (out.1 ≡ w) × ((s : Served) × (out.0 ≡ stopped s))

    handle_served-IsStopped :
        (w : World) (out : Served × World)
        → out.1 ≡ w
        → ((e : _) (values : List Text) (c : Option AdminClaims) → out.0 ≢ runs e values c)
        → IsStopped w (handle_served p t cfg x h out)
    unfolding handle_served
    handle_served-IsStopped w (runs e values c, w') same n = absurd (n e values c refl)
    handle_served-IsStopped w (Served.preflight, w') same n = (same, (Served.preflight, refl))
    handle_served-IsStopped w (Served.redirected, w') same n = (same, (Served.redirected, refl))
    handle_served-IsStopped w (Served.not_found, w') same n = (same, (Served.not_found, refl))
    handle_served-IsStopped w (Served.not_allowed, w') same n = (same, (Served.not_allowed, refl))
    handle_served-IsStopped w (Served.unauthorized, w') same n = (same, (Served.unauthorized, refl))
    handle_served-IsStopped w (Served.key_refused a, w') same n =
        (same, (Served.key_refused a, refl))

    -- Whatever the method, the body and the rest of the path, and whatever fails: a request under
    -- "/admin/" whose bearer token ValidateAdminToken does not find valid at that time is answered
    -- without a handler, and changes nothing at all.
    pub respond-admin :
        (path : List Text) (w : World)
        → h.path ≡ codes "admin" ∷ path
        → ((claims : AdminClaims)
            → validate_admin_token t x.served.blocked cfg x.now (extract_bearer h.headers) w.lru
              ≢ ok claims)
        → ((respond p t cfg x h w).1 ≡ w) × ((s : Served) × ((respond p t cfg x h w).0 ≡ stopped s))
    unfolding respond
    respond-admin path w here refused =
        let served =
          λ (q : List Text). serve p t x.served cfg x.now x.other_id h.method q h.headers w in
        handle_served-IsStopped w (served h.path)
          (subst (λ q. (served q).1 ≡ w) (sym here)
            (serve-admin_world x.served x.now x.other_id h.headers w h.method path))
          (λ e values c q.
            let (claims, _, valid) =
              serve-admin p t x.served cfg x.now x.other_id h.headers w e values c h.method path
                (subst (λ q. (served q).0 ≡ runs e values c) here q) in
            refused claims valid)
