-- ===== src/Signal/Replay.antt =====
-- Deduplication: what a second request for the same ticket and type meets.
use tradecast.Prelude.{◌+◌, ◌<◌, ◌≡◌, ◌⊎◌, ◌∙◌, true, false, some, arith}
use tradecast.Types.{Nanos, InboundSignal}
use tradecast.Config.{AuthConfig}
use tradecast.Platform.{Platform}
use tradecast.World.{World}
use tradecast.Cache.Queue.{enqueue_job}
use tradecast.Cache.Signals.{set_dedup, is_marked, set_latest_signal}
use tradecast.Store.Signals.{insert_signal}
use tradecast.Signal.{Faults, Env, Request, duplicate, normalized, admit, persist, publish, receive}
use tradecast.Signal.Ingest.{IsAuthentic, receive-authentic, admit_marked, dedup-admit}

-- No request with this ticket and type was let through within the time to live.
abbrev pub IsFresh : Env → InboundSignal → World → Type 0
IsFresh e sig w = is_marked e.now (w.critical.dedup sig.ticket_id sig.signal_type) ≡ false

marked-before : {now expires : Nanos} → now < expires → is_marked now (some expires) ≡ true
marked-before h = ground arith

module _ (p : Platform) (f g : Faults) (cfg : AuthConfig) (e e' : Env) (r r' : Request)
    (sig sig' : InboundSignal) (w : World) (first : IsAuthentic p cfg e r sig)
    (second : IsAuthentic p cfg e' r' sig') (ticket : sig'.ticket_id ≡ sig.ticket_id)
    (kind : sig'.signal_type ≡ sig.signal_type) (fresh : IsFresh e sig w) (up : f.dedup ≡ false)
    (soon : e'.now < e.now + cfg.deduplicate_ttl) where
  -- Once Receive has let an authentic request through to the database, an authentic request with
  -- the same ticket and type that comes before the time to live is over is answered `duplicate`
  -- and changes nothing, whichever calls fail, what else its signal says, and whether or not the
  -- first one was stored.
  pub receive_once :
      receive p g cfg e' r' (receive p f cfg e r w).1 ≡ (duplicate, (receive p f cfg e r w).1)
  receive_once =
      receive-authentic p g cfg e' r' sig' (receive p f cfg e r w).1 second
      ∙ admit_marked g cfg e' (normalized sig') (receive p f cfg e r w).1 marked
    where
      marked :
          is_marked e'.now
            ((receive p f cfg e r w).1.critical.dedup sig'.ticket_id sig'.signal_type)
          ≡ true
      marked =
          rw
            (
              ticket,
              kind,
              receive-authentic p f cfg e r sig w first,
              dedup-admit f cfg e (normalized sig) w fresh up,
            )
            (marked-before soon)

-- The database write or the push onto the queue fails.
abbrev pub IsLost : Faults → Type 0
IsLost f = (f.insert ≡ true) ⊎ (f.enqueue ≡ true)

queue-admit :
    (f : Faults) (cfg : AuthConfig) (e : Env) (sig : InboundSignal) (w : World)
    → IsLost f
    → (admit f cfg e sig w).1.critical.queue ≡ w.critical.queue
unfolding admit set_dedup persist publish set_latest_signal enqueue_job insert_signal
queue-admit f cfg e sig w h = ground (arith, h)

-- If the insertion or the push onto the queue fails, an authentic request that is no duplicate
-- leaves every queue as it was, and yet each authentic request for the same ticket and type within
-- the time to live is answered `duplicate` and changes nothing: the signal is not delivered.
pub receive_loses :
    (p : Platform) (f g : Faults) (cfg : AuthConfig) (e e' : Env) (r r' : Request)
    (sig sig' : InboundSignal) (w : World)
    → IsAuthentic p cfg e r sig
    → IsAuthentic p cfg e' r' sig'
    → sig'.ticket_id ≡ sig.ticket_id
    → sig'.signal_type ≡ sig.signal_type
    → IsFresh e sig w
    → f.dedup ≡ false
    → e'.now < e.now + cfg.deduplicate_ttl
    → IsLost f
    → ((receive p f cfg e r w).1.critical.queue ≡ w.critical.queue)
      × (receive p g cfg e' r' (receive p f cfg e r w).1 ≡ (duplicate, (receive p f cfg e r w).1))
receive_loses p f g cfg e e' r r' sig sig' w first second ticket kind fresh up soon lost = (
  rw (receive-authentic p f cfg e r sig w first) (queue-admit f cfg e (normalized sig) w lost),
  receive_once p f g cfg e e' r r' sig sig' w first second ticket kind fresh up soon,
)
