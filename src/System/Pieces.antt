-- ===== src/System/Pieces.antt =====
-- A job in the hands of the worker, one piece of work at a time: `consumeSymbol` and `processJob` of
-- internal/queue/consumer.go with other goroutines at work in between.
use tradecast.Prelude.{
  Option, none, some, List, [], ◌∷◌, Text, Json, unmarshal, leb, doc, if◌then◌else◌,
}
use tradecast.Types.{Uuid, Job}
use tradecast.Config.{WorkerConfig}
use tradecast.World.{World}
use tradecast.Cache.Queue.{of_bytes, ack_job, enqueue_job}
use tradecast.Consumer.{Handler, Faults, later, attempted, bury}

-- Where a goroutine is with the job of a symbol:
--   fetched: DequeueJob has returned these bytes
--   working: these handlers are still to be called, and this is the last error so far
--   waiting: the job was acknowledged, and is enqueued again after the backoff
pub data Flight : Type 0 where
  fetched : Text → Json Job → Flight
  working : Text → Json Job → Job → List Handler → Option Text → Flight
  waiting : Text → Job → Flight

-- The next piece of work: the decoding, one handler, what follows the handlers, or the retry. `hs`
-- are the handlers that are registered.
unfoldable pub advance :
    WorkerConfig → List Handler → Faults → Uuid → Flight → World → Option Flight × World
advance cfg hs f id (fetched symbol raw) w = elim (unmarshal raw) [
  | none ↦ (none, record w { critical = ack_job f.ack symbol raw w.critical })
  | some job ↦ (some (working symbol raw job hs none), w)
]
advance cfg hs f id (working symbol raw job [] none) w =
    (none, record w { critical = ack_job f.ack symbol raw w.critical })
advance cfg hs f id (working symbol raw job [] (some e)) w =
    if leb cfg.max_retries (attempted job).attempts
    then (none, bury f id symbol raw (attempted job) e w)
    else (
      some (waiting symbol (attempted job)),
      record w { critical = ack_job f.ack symbol raw w.critical },
    )
advance cfg hs f id (waiting symbol job) w =
    let again = (enqueue_job f.enqueue symbol (of_bytes (doc job)) w.critical).1 in
    (none, if f.cancelled then w else record w { critical = again })
advance cfg hs f id (working symbol raw job (h ∷ rest) last) w =
    let (e, db) = h job w.db in
    (some (working symbol raw job rest (later last e)), record w { db = db })
