-- ===== src/System/Polled.antt =====
-- From POST /signal to GET /pending/{symbol} of cmd/server/main.go.
mod Tests
use tradecast.Prelude.{
  ℕ, ◌≡◌, refl, ap, sym, subst, ◌∙◌, false, true, some, none, List, [], ◌∷◌, Text, codes, to_upper,
  upper, map, doc, text_eq, is_empty,
}
use tradecast.Types.{Uuid, InboundSignal, CachedKey}
use tradecast.Config.{AuthConfig}
use tradecast.Platform.{Platform}
use tradecast.World.{World}
use tradecast.Cache.Signals.{get_latest_signal}
use tradecast.Auth.Jwt.{Tokens}
use tradecast.Auth.Middleware.{Answer, passed, api_key_middleware}
use tradecast.Auth.Middleware.Counters.{api_key_middleware-Keeps}
use tradecast.Auth.Request.{call_of}
use tradecast.Signal.{Pending, found, normalized, receive, get_pending}
use tradecast.Signal.Ingest.{IsAuthentic}
use tradecast.Signal.Accept
use tradecast.Signal.Accept.{IsAccepted, receive-IsAccepted}
use tradecast.Signal.Replay.{IsFresh}
use tradecast.Server.{
  Method, Endpoint, after_key, lookup, match_path, takes, dispatch, guarded, serve,
}
use tradecast.Server.Respond.{
  BodyOf, ReplyOf, Http, Context, Response, handled, env_of, request_of, run, handle_served,
  respond,
}
use tradecast.System.Relay.{posted, respond-IsAccepted}

-- GET /pending/{symbol}
abbrev pub polled : Http → Text → Http
polled h symbol = record h { method = Method.get; path = codes "pending" ∷ symbol ∷ [] }

-- the answer of GetPending
unfoldable pub pending_response : Pending → Response
unfolding ReplyOf
pending_response r = handled Endpoint.get_pending r

module _ (p : Platform) (t : Tokens) (cfg : AuthConfig) (x : Context) where
  handle_served-passed :
      (h : Http) (symbol : Text) (ck : CachedKey) (r : Answer × World)
      → r.0 ≡ passed ck
      → (handle_served p t cfg x h (after_key Endpoint.get_pending (symbol ∷ []) r.0, r.1)).0
        ≡ pending_response (get_pending x.admin.cache symbol r.1)
  unfolding handle_served run ReplyOf pending_response
  handle_served-passed h symbol ck (answer, w) e =
      subst
        (λ a.
          (handle_served p t cfg x h (after_key Endpoint.get_pending (symbol ∷ []) a, w)).0
          ≡ pending_response (get_pending x.admin.cache symbol w))
        (sym e) refl

  -- a poll with a key that the middleware accepts
  respond-polled :
      (h : Http) (c : ℕ) (cs : Text) (ck : CachedKey) (w : World)
      → (api_key_middleware p x.served.key cfg x.now x.other_id
          (codes "copy:receive")
          (call_of h.headers)
          w).0
        ≡ passed ck
      → (respond p t cfg x (polled h (c ∷ cs)) w).0
        ≡ pending_response (
            get_pending x.admin.cache
              (c ∷ cs)
              (api_key_middleware p x.served.key cfg x.now x.other_id
                (codes "copy:receive")
                (call_of h.headers)
                w).1)
  unfolding respond serve dispatch guarded lookup match_path takes text_eq
  respond-polled h c cs ck w e = handle_served-passed (polled h (c ∷ cs)) (c ∷ cs) ck _ e

  get_pending-latest :
      (c : ℕ) (cs : Text) (sig : InboundSignal) (w : World)
      → to_upper (c ∷ cs) ≡ sig.symbol
      → w.critical.latest sig.symbol ≡ some (doc sig)
      → get_pending false (c ∷ cs) w ≡ Pending.found (doc sig)
  unfolding get_pending get_latest_signal to_upper
  get_pending-latest c cs sig w here shown = rw (here, shown) refl

-- If no call of the POST fails, nor the read of the latest signal: after a POST of an authentic signal
-- that is no duplicate, a poll of its normal symbol, in capitals or not, with a key that
-- APIKeyMiddleware lets through, is answered with that signal, if nothing else happens in between.
pub respond-posted-polled :
    (p : Platform) (t : Tokens) (cfg : AuthConfig) (x y : Context) (h g : Http)
    (sig : InboundSignal) (w : World) (c : ℕ) (cs : Text) (ck : CachedKey)
    → x.signal ≡ Accept.no_faults
    → y.admin.cache ≡ false
    → IsAuthentic p cfg (env_of x) (request_of (posted h)) sig
    → IsFresh (env_of x) sig w
    → to_upper (c ∷ cs) ≡ (normalized sig).symbol
    → (api_key_middleware p y.served.key cfg y.now y.other_id
        (codes "copy:receive")
        (call_of g.headers)
        (respond p t cfg x (posted h) w).1).0
      ≡ passed ck
    → (respond p t cfg y (polled g (c ∷ cs)) (respond p t cfg x (posted h) w).1).0
      ≡ pending_response (Pending.found (doc (normalized sig)))
respond-posted-polled p t cfg x y h g sig w c cs ck up read authentic fresh here allowed =
    let sent = normalized sig in
    let before = (respond p t cfg x (posted h) w).1 in
    let checked =
      api_key_middleware p y.served.key cfg y.now y.other_id (codes "copy:receive")
        (call_of g.headers) before in
    let received = respond-IsAccepted p t cfg x h sig w up authentic fresh in
    let (_, _, _, _, kept) =
      api_key_middleware-Keeps p y.served.key cfg y.now y.other_id (codes "copy:receive")
        (call_of g.headers) before in
    let shown : checked.1.critical.latest sent.symbol ≡ some (doc sent) =
      ap (λ m. m sent.symbol) kept ∙ received.latest in
    respond-polled p t cfg y g c cs ck before allowed
    ∙ ap pending_response (
        subst (λ fault. get_pending fault (c ∷ cs) checked.1 ≡ Pending.found (doc sent)) (sym read)
          (get_pending-latest p t cfg y c cs sent checked.1 here shown))
