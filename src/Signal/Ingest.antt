-- ===== src/Signal/Ingest.antt =====
-- What POST /signal does to the world (`Receive` of internal/signal/handler.go).
use tradecast.Cache.{Critical}
use tradecast.Prelude.{
  Fault, Text, Option, Bool, ap, ◌∙◌, Result, ok, err, ◌+◌, ◌≤◌, ◌<◌, ◌≡◌, ◌⊎◌, inl, inr, refl,
  true, false, none, some, ◌||◌, ℤ, text_eq_refl, is_empty, unmarshal, Bool-cases, Option-cases,
  arith,
}
use tradecast.Types.{Nanos, Uuid, InboundSignal}
use tradecast.Config.{AuthConfig}
use tradecast.Platform.{Platform}
use tradecast.World.{World}
use tradecast.Cache.Signals.{set_dedup, is_marked, eq_ℤ}
use tradecast.Cache.Signals.{set_latest_signal}
use tradecast.Cache.Queue.{enqueue_job}
use tradecast.Store.{Db, StoreError}
use tradecast.Signal.{
  persist, Faults, Env, Request, Reply, duplicate, validate, verify, normalized, status, admit,
  receive, receive_signal, publish,
}

-- A request with both headers, whose body is the signal `sig`, valid and signed.
pub record IsAuthentic (p : Platform) (cfg : AuthConfig) (e : Env) (r : Request)
    (sig : InboundSignal) : Type 0 where
  pub headers : (is_empty r.signature || is_empty r.timestamp) ≡ false
  pub body : unmarshal r.body ≡ some sig
  pub valid : validate sig ≡ none
  pub verified : verify p cfg e.now r (normalized sig) ≡ none

module _ (p : Platform) (f : Faults) (cfg : AuthConfig) (e : Env) (r : Request) where
  pub receive-authentic :
      (sig : InboundSignal) (w : World)
      → IsAuthentic p cfg e r sig
      → receive p f cfg e r w ≡ admit f cfg e (normalized sig) w
  unfolding receive receive_signal
  receive-authentic sig w a =
      rw (a.headers, a.body, receive) (rw (a.valid, a.verified, receive_signal))

  abbrev Gate : Reply × World → World → Type 0
  Gate (reply, w') w =
      ((w' ≡ w) × (400 ≤ status reply) × (status reply < 500))
      ⊎ ((sig : InboundSignal) × IsAuthentic p cfg e r sig
          × ((reply, w') ≡ admit f cfg e (normalized sig) w))

  receive_signal_cases :
      (sig : InboundSignal) (w : World)
      → (is_empty r.signature || is_empty r.timestamp) ≡ false
      → unmarshal r.body ≡ some sig
      → Gate (receive_signal p f cfg e r sig w) w
  unfolding receive_signal
  receive_signal_cases sig w h b = elim (Option-cases (validate sig)) [
    | inr (x, v) ↦ rw (v, receive_signal) (inl (refl, omega arith, omega arith))
    | inl v ↦ elim (Option-cases (verify p cfg e.now r (normalized sig))) [
      | inr (x, k) ↦ rw (v, k, receive_signal) (inl (refl, omega arith, omega arith))
      | inl k ↦
          rw (v, k, receive_signal)
            (inr (sig, record { headers = h; body = b; valid = v; verified = k }, refl))
    ]
  ]

  -- Whatever fails: Receive either refuses the request with a 4xx status and changes nothing, or
  -- the request has both headers and a valid, correctly signed signal, and Receive goes on to the
  -- deduplication of that signal under its normal symbol.
  pub receive_cases :
      (w : World)
      → ((receive p f cfg e r w).1 ≡ w)
          × (400 ≤ status (receive p f cfg e r w).0)
          × (status (receive p f cfg e r w).0 < 500)
        ⊎ ((sig : InboundSignal) × IsAuthentic p cfg e r sig
            × (receive p f cfg e r w ≡ admit f cfg e (normalized sig) w))
  unfolding receive
  receive_cases w = elim (Bool-cases (is_empty r.signature || is_empty r.timestamp)) [
    | inl h ↦ rw h (inl (refl, omega arith, omega arith))
    | inr h ↦ elim (Option-cases (unmarshal r.body)) [
      | inl b ↦ rw (h, b, receive) (inl (refl, omega arith, omega arith))
      | inr (sig, b) ↦ rw (h, b, receive) (receive_signal_cases sig w h b)
    ]
  ]

eq_ℤ_refl : (a : ℤ) → eq_ℤ a a ≡ true
unfolding eq_ℤ
eq_ℤ_refl a = ground arith

dedup-publish :
    (f : Faults) (e : Env) (sig : InboundSignal) (w : World) (r : Result StoreError Uuid × Db)
    → (publish f e sig w r).1.critical.dedup ≡ w.critical.dedup
unfolding publish set_latest_signal enqueue_job
dedup-publish f e sig w (err x, db) = refl
dedup-publish f e sig w (ok id, db) = ground arith

dedup-persist :
    (f : Faults) (e : Env) (sig : InboundSignal) (w : World) (r : Result Fault Bool × Critical)
    → r.0 ≡ ok true
    → (persist f e sig w r).1.critical.dedup ≡ r.1.dedup
unfolding persist
dedup-persist f e sig w (ok true, c) h = dedup-publish f e sig _ _
dedup-persist f e sig w (ok false, c) h = refl
dedup-persist f e sig w (err x, c) h = refl

-- SETNX on a mark that is not set, or has expired
set_dedup_fresh :
    (fault : Bool) (now : Nanos) (ticket : ℤ) (kind : Text) (ttl : Nanos) (c : Critical)
    → fault ≡ false
    → is_marked now (c.dedup ticket kind) ≡ false
    → ((set_dedup fault now ticket kind ttl c).0 ≡ ok true)
      × ((set_dedup fault now ticket kind ttl c).1.dedup ticket kind ≡ some (now + ttl))
unfolding set_dedup
set_dedup_fresh fault now ticket kind ttl c g h =
    ground (arith, g, h, eq_ℤ_refl ticket, text_eq_refl kind)

module _ (f : Faults) (cfg : AuthConfig) (e : Env) (sig : InboundSignal) (w : World) where
  pub admit_marked :
      is_marked e.now (w.critical.dedup sig.ticket_id sig.signal_type) ≡ true
      → admit f cfg e sig w ≡ (duplicate, w)
  unfolding admit set_dedup persist
  admit_marked h = ground (arith, h)

  pub dedup-admit :
      is_marked e.now (w.critical.dedup sig.ticket_id sig.signal_type) ≡ false
      → f.dedup ≡ false
      → (admit f cfg e sig w).1.critical.dedup sig.ticket_id sig.signal_type
        ≡ some (e.now + cfg.deduplicate_ttl)
  unfolding admit
  dedup-admit h g =
      let t = cfg.deduplicate_ttl in
      let fresh = set_dedup_fresh f.dedup e.now sig.ticket_id sig.signal_type t w.critical g h in
      ap (λ (m : ℤ → Text → Option Nanos). m sig.ticket_id sig.signal_type)
        (dedup-persist f e sig w _ fresh.0)
      ∙ fresh.1
