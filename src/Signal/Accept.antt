-- ===== src/Signal/Accept.antt =====
-- What an accepted signal leaves behind.
use tradecast.Prelude.{◌≡◌, ◌≢◌, false, some, ◌∷◌, Text, text_eq_iff, text_eq_refl, doc, arith}
use tradecast.Types.{InboundSignal}
use tradecast.Config.{AuthConfig}
use tradecast.Platform.{Platform}
use tradecast.World.{World}
use tradecast.Cache.Queue.{enqueue_job}
use tradecast.Cache.Signals.{set_dedup, set_latest_signal}
use tradecast.Store.Signals.{column, insert_signal}
use tradecast.Signal.{
  Faults, Env, Request, Reply, accepted, normalized, admit, persist, publish, receive, stored,
  job_for,
}
use tradecast.Signal.Ingest.{IsAuthentic, receive-authentic}
use tradecast.Signal.Replay.{IsFresh}

abbrev pub no_faults : Faults
no_faults = record { dedup = false; insert = false; latest = false; enqueue = false }

-- The signal `sig` is accepted: it is the newest row of the table, as the columns keep it, the latest
-- signal of its symbol and, as a job with no attempts yet, the newest entry of its queue; other
-- symbols, the processing lists and the dead letters are as in `w`.
pub record IsAccepted (e : Env) (sig : InboundSignal) (w : World) (out : Reply × World)
    : Type 0 where
  pub reply : out.0 ≡ accepted e.signal_id
  pub row :
      out.1.db.signals
      ≡ record { id = e.signal_id; signal = column (stored sig); received_at = e.now }
        ∷ w.db.signals
  pub latest : out.1.critical.latest sig.symbol ≡ some (doc sig)
  pub job :
      out.1.critical.queue sig.symbol
      ≡ doc (job_for e e.signal_id sig) ∷ w.critical.queue sig.symbol
  pub others :
      (s : Text)
      → s ≢ sig.symbol
      → (out.1.critical.latest s ≡ w.critical.latest s)
        × (out.1.critical.queue s ≡ w.critical.queue s)
  pub processing : out.1.critical.processing ≡ w.critical.processing
  pub dead_letter : out.1.critical.dead_letter ≡ w.critical.dead_letter

admit-IsAccepted :
    (cfg : AuthConfig) (e : Env) (sig : InboundSignal) (w : World)
    → IsFresh e sig w
    → IsAccepted e sig w (admit no_faults cfg e sig w)
unfolding admit set_dedup persist publish set_latest_signal enqueue_job insert_signal
admit-IsAccepted cfg e sig w fresh = record {
  reply = ground (arith, fresh);
  row = ground (arith, fresh);
  latest = ground (arith, fresh, text_eq_refl sig.symbol);
  job = ground (arith, fresh, text_eq_refl sig.symbol);
  others = λ s n. ground (arith, fresh, text_eq_iff sig.symbol s, n);
  processing = ground (arith, fresh);
  dead_letter = ground (arith, fresh);
}

-- If no call fails, an authentic request that is no duplicate is accepted, with its signal under
-- the normal symbol.
pub receive-IsAccepted :
    (p : Platform) (cfg : AuthConfig) (e : Env) (r : Request) (sig : InboundSignal) (w : World)
    → IsAuthentic p cfg e r sig
    → IsFresh e sig w
    → IsAccepted e (normalized sig) w (receive p no_faults cfg e r w)
receive-IsAccepted p cfg e r sig w authentic fresh =
    rw (receive-authentic p no_faults cfg e r sig w authentic)
      (admit-IsAccepted cfg e (normalized sig) w fresh)
