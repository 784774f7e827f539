-- ===== src/System/Work.antt =====
-- The worker of internal/queue/consumer.go keeps the jobs genuine.
use tradecast.Prelude.{refl, List, Text, Json, doc, arith}
use tradecast.Types.{Uuid, Job}
use tradecast.Config.{AuthConfig}
use tradecast.Platform.{Platform}
use tradecast.World.{World}
use tradecast.World.Frame.{KeepsSignals}
use tradecast.Cache.{Critical}
use tradecast.Cache.Queue.{of_bytes, ack_job, enqueue_job, move_to_dead_letter}
use tradecast.Store.{Db}
use tradecast.Store.Deliveries.{insert_dead_letter}
use tradecast.Consumer
use tradecast.Consumer.{Handler, attempted, bury, retry, conclude}
use tradecast.System.Genuine.{IsGenuine, Genuine, IsSound}
use tradecast.System.Pieces.{Flight}
use tradecast.System.Lists.{enqueue_job-Sound, ack_job-Sound, move_to_dead_letter-Sound}
use tradecast.System.Growth.{Holds, Keeps-Holds}

module _ (p : Platform) (cfg : AuthConfig) (flights : List Flight) where
  -- new lists, over the same rows
  pub critical-Holds :
      (w : World) (critical : Critical)
      → IsSound p cfg w.db.signals critical
      → Holds p cfg w flights
      → Holds p cfg (record w { critical = critical }) flights
  critical-Holds w critical s h = record { lists = s; rows = h.rows; hands = h.hands }

  -- another database, with the same signals
  pub db-Holds :
      (w : World) (db : Db)
      → KeepsSignals w.db db
      → Holds p cfg w flights
      → Holds p cfg (record w { db = db }) flights
  db-Holds w db k h = Keeps-Holds p cfg w _ flights (k, refl, refl, refl, refl) h

  module _ (f : Consumer.Faults) (id : Uuid) (symbol : Text) (raw : Json Job) where
    pub again-Holds :
        (job : Job) (w : World)
        → IsGenuine p cfg w.db.signals symbol job.signal_id job.signal
        → Holds p cfg w flights
        → Holds p cfg
            (record w {
              critical = (enqueue_job f.enqueue symbol (of_bytes (doc job)) w.critical).1;
            })
            flights
    again-Holds job w g h =
        critical-Holds w _
          (enqueue_job-Sound p cfg w.db.signals f.enqueue symbol (of_bytes (doc job)) w.critical
            h.lists g)
          h

    pub ack-Holds :
        (w : World)
        → Holds p cfg w flights
        → Holds p cfg (record w { critical = ack_job f.ack symbol raw w.critical }) flights
    ack-Holds w h =
        critical-Holds w _ (ack_job-Sound p cfg w.db.signals f.ack symbol raw w.critical h.lists) h

    pub bury-Holds :
        (job : Job) (e : Text) (w : World)
        → Genuine p cfg w.db.signals symbol raw
        → Holds p cfg w flights
        → Holds p cfg (bury f id symbol raw job e w) flights
    unfolding bury insert_dead_letter
    bury-Holds job e w g h =
        let buried = move_to_dead_letter f.move symbol raw w.critical in
        db-Holds (record w { critical = buried }) _ (ground arith)
          (critical-Holds w buried
            (move_to_dead_letter-Sound p cfg w.db.signals f.move symbol raw w.critical h.lists g) h)
