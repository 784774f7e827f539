-- ===== src/System/Proceed.antt =====
-- A goroutine of the worker of internal/queue/consumer.go keeps the jobs genuine.
use tradecast.Prelude.{
  ℕ, zero, suc, ◌≡◌, refl, Option, none, some, List, [], ◌∷◌, Json, doc, Every, if-both, leb, arith,
}
use tradecast.Types.{Uuid}
use tradecast.Config.{AuthConfig, WorkerConfig, NotifyConfig}
use tradecast.Platform.{Platform}
use tradecast.World.{World}
use tradecast.World.Frame.{KeepsSignals}
use tradecast.Store.Deliveries.{insert_dead_letter}
use tradecast.Notify.{Wire}
use tradecast.Consumer
use tradecast.Consumer.{Handler, later, attempted, bury}
use tradecast.Worker.{Envs, handlers}
use tradecast.Worker.Frame.{Spares, handlers-Spares}
use tradecast.System.{landed, proceed_nth}
use tradecast.System.Genuine.{InHand}
use tradecast.System.Pieces.{Flight, fetched, working, waiting, advance}
use tradecast.System.Lists.{ack_job-Sound}
use tradecast.System.Growth.{Holds}
use tradecast.System.Work.{critical-Holds, db-Holds, ack-Holds, again-Holds, bury-Holds}

module _ (p : Platform) (cfg : AuthConfig) (worker : WorkerConfig) (f : Consumer.Faults)
    (id : Uuid) where
  module _ (hs : List Handler) (spared : Every Spares hs) where
    abbrev Safe : List Flight → Option Flight × World → Type 0
    Safe flights r = Holds p cfg (landed r flights).1 (landed r flights).0

    -- where the worker is after the next piece of work on a job
    advance-Holds :
        (x : Flight) (w : World) (flights : List Flight)
        → InHand p cfg w.db.signals x
        → Holds p cfg w flights
        → let after = landed (advance worker hs f id x w) flights in Holds p cfg after.1 after.0
    unfolding advance
    advance-Holds (fetched symbol (doc job)) w flights g h = record {
      lists = h.lists;
      rows = h.rows;
      hands = ((refl, g, spared), h.hands);
    }
    advance-Holds (fetched symbol (Json.quoted b)) w flights g h =
        critical-Holds p cfg flights w _
          (ack_job-Sound p cfg w.db.signals f.ack symbol (Json.quoted b) w.critical h.lists) h
    advance-Holds (fetched symbol (Json.other t)) w flights g h = absurd g
    advance-Holds (working symbol raw job [] none) w flights (same, g, s) h =
        ack-Holds p cfg flights f id symbol raw w h
    advance-Holds (working symbol raw job [] (some e)) w flights (same, g, s) h =
        if-both (Safe flights) (leb worker.max_retries (attempted job).attempts)
          (bury-Holds p cfg flights f id symbol raw (attempted job) e w (rw same g) h)
          (let acked = ack-Holds p cfg flights f id symbol raw w h in
            record {
              lists = acked.lists;
              rows = acked.rows;
              hands = (record { signed = g.signed; place = g.place; row = g.row }, acked.hands);
            })
    advance-Holds (waiting symbol job) w flights g h =
        if-both (λ w'. Holds p cfg w' flights) f.cancelled h
          (again-Holds p cfg flights f id symbol (doc job) job w g h)
    advance-Holds (working symbol raw job (k ∷ rest) last) w flights (same, g, s) h =
        let kept = db-Holds p cfg flights w (k job w.db).1 (s.0 job w.db) h in
        record {
          lists = kept.lists;
          rows = kept.rows;
          hands = (rw (s.0 job w.db) (same, g, s.1), kept.hands);
        }

    advance-KeepsSignals :
        (x : Flight) (w : World)
        → InHand p cfg w.db.signals x
        → KeepsSignals w.db (advance worker hs f id x w).1.db
    unfolding advance bury insert_dead_letter
    advance-KeepsSignals (fetched symbol (doc job)) w g = refl
    advance-KeepsSignals (fetched symbol (Json.quoted b)) w g = refl
    advance-KeepsSignals (fetched symbol (Json.other t)) w g = refl
    advance-KeepsSignals (working symbol raw job [] none) w g = refl
    advance-KeepsSignals (working symbol raw job [] (some e)) w g = ground arith
    advance-KeepsSignals (waiting symbol job) w g = ground arith
    advance-KeepsSignals (working symbol raw job (k ∷ rest) last) w (same, g, s) = s.0 job w.db

  module _ (wire : Wire) (notify : NotifyConfig) (envs : Envs) where
    landed-world : (r : Option Flight × World) (xs : List Flight) → (landed r xs).1 ≡ r.1
    landed-world (none, w) xs = refl
    landed-world (some x, w) xs = refl

    abbrev proceed : ℕ → List Flight → World → List Flight × World
    proceed n xs w = proceed_nth p wire worker notify n f id envs xs w

    proceed_nth-KeepsSignals :
        (n : ℕ) (xs : List Flight) (w : World)
        → Every (InHand p cfg w.db.signals) xs
        → KeepsSignals w.db (proceed n xs w).1.db
    unfolding proceed_nth
    proceed_nth-KeepsSignals n [] w g = refl
    proceed_nth-KeepsSignals zero (x ∷ xs) w g =
        rw (landed-world (advance worker (handlers p wire notify envs) f id x w) xs) (
          advance-KeepsSignals (handlers p wire notify envs) (handlers-Spares p wire notify envs) x
            w g.0)
    proceed_nth-KeepsSignals (suc n) (x ∷ xs) w g = proceed_nth-KeepsSignals n xs w g.1

    pub proceed_nth-Holds :
        (n : ℕ) (xs : List Flight) (w : World)
        → Holds p cfg w xs
        → let after = proceed_nth p wire worker notify n f id envs xs w in
          Holds p cfg after.1 after.0
    unfolding proceed_nth
    proceed_nth-Holds n [] w h = h
    proceed_nth-Holds zero (x ∷ xs) w h =
        advance-Holds (handlers p wire notify envs) (handlers-Spares p wire notify envs) x w xs
          h.hands.0 (record { lists = h.lists; rows = h.rows; hands = h.hands.1 })
    proceed_nth-Holds (suc n) (x ∷ xs) w h =
        let rest =
          proceed_nth-Holds n xs w (record { lists = h.lists; rows = h.rows; hands = h.hands.1 }) in
        record {
          lists = rest.lists;
          rows = rest.rows;
          hands = (rw (proceed_nth-KeepsSignals n xs w h.hands.1) h.hands.0, rest.hands);
        }
