-- ===== src/Auth/Request/Forwarded.antt =====
-- The address that failed attempts are counted under: realIP behind the proxy of nginx/nginx.conf.
use tradecast.Prelude.{
  ℕ, ◌<◌, ◌≡◌, ap, subst, refl, ◌∙◌, Bool, true, false, none, some, List, [], ◌∷◌, ◌++◌, Text,
  codes, before, is_empty, text_eq, trim_space, any, arith, if◌then◌else◌, leb, Option, Bool-cases,
  Result, ok, err, not, ◌&&◌, inl, inr,
}
use tradecast.Types.{Uuid, Nanos, CachedKey}
use tradecast.Config.{AuthConfig}
use tradecast.Platform.{Platform}
use tradecast.World.{World}
use tradecast.Store.{StoreError}
use tradecast.Auth.Keys.{has_scope}
use tradecast.Auth.Machines.{BindingError}
use tradecast.Cache.Keys.{get_auth_failures}
use tradecast.Auth.Middleware.{
  Faults, Answer, Call, bound, authorize, too_many, failures_or_zero, api_key_middleware,
}
use tradecast.Auth.Middleware.Counters.{KeepsOthers, api_key_middleware-KeepsOthers}
use tradecast.Auth.Request.{Request, occurs, real_ip, call_of}

-- What nginx makes of a request: `X-Forwarded-For $proxy_add_x_forwarded_for` appends the address of
-- the client to what the client sent, and `X-Real-IP $remote_addr` replaces it.
abbrev pub proxied : Text → Request → Request
proxied remote r = record r {
  x_forwarded_for =
      if is_empty r.x_forwarded_for then remote else r.x_forwarded_for ++ (codes ", " ++ remote);
  x_real_ip = remote;
}

-- One attempt: what the client sends, from which address, and the circumstances of the call.
pub record Attempt : Type 0 where
  pub request : Request
  pub remote : Text
  pub faults : Faults
  pub now : Nanos
  pub id : Uuid
  pub scope : Text

-- the answers to the attempts, one after the other
abbrev pub run : Platform → AuthConfig → List Attempt → World → List Answer
run p cfg [] w = []
run p cfg (a ∷ rest) w =
    let c = call_of (proxied a.remote a.request) in
    let done = api_key_middleware p a.faults cfg a.now a.id a.scope c w in
    done.0 ∷ run p cfg rest done.1

-- The client names an address, without spaces around it and without a comma.
abbrev pub IsClaim : Text → Type 0
IsClaim ip = (is_empty ip ≡ false) × (occurs b',' ip ≡ false) × (trim_space ip ≡ ip)

-- Each attempt claims an address of its own, under which no failure is counted.
abbrev pub AllFresh : List Attempt → World → Type 0
AllFresh [] w = Unit
AllFresh (a ∷ rest) w =
    let ip = a.request.x_forwarded_for in
    IsClaim ip
    × (w.lru.auth_failures ip ≡ none)
    × (any (λ b. text_eq ip b.request.x_forwarded_for) rest ≡ false)
    × AllFresh rest w

abbrev pub is_too_many : Answer → Bool
is_too_many too_many = true
is_too_many Answer.missing_key = false
is_too_many Answer.internal_error = false
is_too_many Answer.invalid_key = false
is_too_many Answer.no_scope = false
is_too_many (Answer.rejected e) = false
is_too_many (Answer.passed ck) = false

before-append : (b : ℕ) (s t : Text) → occurs b s ≡ false → before b (s ++ b ∷ t) ≡ s
unfolding before
before-append b [] t h = ground arith
before-append b (c ∷ s) t h = ground (arith, h, before-append b s t)

is_empty-append : (s t : Text) → is_empty s ≡ false → is_empty (s ++ t) ≡ false
is_empty-append [] t h = ground (arith, h)
is_empty-append (c ∷ s) t h = refl

-- Behind the proxy the address is the one that the client claims.
real_ip-proxied :
    (remote : Text) (r : Request)
    → IsClaim r.x_forwarded_for
    → real_ip (proxied remote r) ≡ r.x_forwarded_for
unfolding real_ip
real_ip-proxied remote r (full, plain, trimmed) =
    let ip = r.x_forwarded_for in
    let cut = before-append b',' ip (32 ∷ remote) plain in
    let kept = is_empty-append ip (codes ", " ++ remote) full in
    rw (full, real_ip) (rw (kept, real_ip) (ap trim_space cut ∙ trimmed))

module _ (p : Platform) (cfg : AuthConfig) (f : Faults) (now : Nanos) (id : Uuid) (scope : Text)
    (c : Call) where
  bound-is_too_many :
      (ck : CachedKey) (r : Option BindingError × World) → is_too_many (bound ck r).0 ≡ false
  bound-is_too_many ck (none, w) = refl
  bound-is_too_many ck (some e, w) = refl

  authorize-is_too_many :
      (r : Result StoreError (Option CachedKey) × World)
      → is_too_many (authorize p f cfg now id scope c r).0 ≡ false
  unfolding authorize
  authorize-is_too_many (err e, w) = refl
  authorize-is_too_many (ok none, w) = refl
  authorize-is_too_many (ok (some ck), w) =
      elim (Bool-cases (not (is_empty scope) && not (has_scope ck scope))) [
        | inl e ↦ rw e refl
        | inr e ↦ rw e (bound-is_too_many ck _)
      ]

  failures_none :
      (w : World)
      → w.lru.auth_failures c.ip ≡ none
      → failures_or_zero (get_auth_failures f.failures now c.ip w.lru) ≡ 0
  unfolding get_auth_failures
  failures_none w h = ground (arith, h)

  api_key_middleware-is_too_many :
      (w : World)
      → 0 < cfg.rate_limit_max_fail
      → w.lru.auth_failures c.ip ≡ none
      → is_too_many (api_key_middleware p f cfg now id scope c w).0 ≡ false
  unfolding api_key_middleware
  api_key_middleware-is_too_many w positive h =
      let few : leb cfg.rate_limit_max_fail
            (failures_or_zero (get_auth_failures f.failures now c.ip w.lru))
          ≡ false =
        rw (failures_none w h) (ground (arith, positive)) in
      rw few (elim (Bool-cases (is_empty c.api_key)) [
        | inl q ↦ rw q refl
        | inr q ↦ rw q (authorize-is_too_many _)
      ])

AllFresh-keeps :
    (ip : Text) (attempts : List Attempt) (w w' : World)
    → any (λ b. text_eq ip b.request.x_forwarded_for) attempts ≡ false
    → KeepsOthers ip w w'
    → AllFresh attempts w
    → AllFresh attempts w'
unfolding any
AllFresh-keeps ip [] w w' h k fresh = tt
AllFresh-keeps ip (a ∷ rest) w w' h k (claim, unused, apart, fresh) = (
  claim,
  k a.request.x_forwarded_for (ground (arith, h)) ∙ unused,
  apart,
  AllFresh-keeps ip rest w w' (ground (arith, h)) k fresh,
)

-- Behind the proxy of nginx/nginx.conf, a client that claims a new address in `X-Forwarded-For`
-- with every attempt, however many there are and whatever keys it tries, is never refused for too
-- many failures, if the limit is positive: no attempt is counted under the address of the client.
pub run_unlimited :
    (p : Platform) (cfg : AuthConfig) (attempts : List Attempt) (w : World)
    → 0 < cfg.rate_limit_max_fail
    → AllFresh attempts w
    → any is_too_many (run p cfg attempts w) ≡ false
unfolding any call_of
run_unlimited p cfg [] w positive fresh = refl
run_unlimited p cfg (a ∷ rest) w positive (claim, unused, apart, fresh) =
    let ip = a.request.x_forwarded_for in
    let c = call_of (proxied a.remote a.request) in
    let ip_is : c.ip ≡ ip = real_ip-proxied a.remote a.request claim in
    let first =
      api_key_middleware-is_too_many p cfg a.faults a.now a.id a.scope c w positive
        (ap w.lru.auth_failures ip_is ∙ unused) in
    let others = api_key_middleware-KeepsOthers p a.faults cfg a.now a.id a.scope c w in
    let left =
      AllFresh-keeps ip rest w _ apart
        (subst (λ x. KeepsOthers x w (api_key_middleware p a.faults cfg a.now a.id a.scope c w).1)
          ip_is others)
        fresh in
    rw first (run_unlimited p cfg rest _ positive left)
