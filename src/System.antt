-- ===== src/System.antt =====
-- The server of cmd/server/main.go and the worker of cmd/worker/main.go at work on one database and
-- one Redis: any number of requests, consumers, cleanups and syncs, interleaved in any order.
pub mod Pieces
pub mod Genuine
pub mod Lists
pub mod Growth
pub mod Receive
pub mod Work
pub mod Proceed
pub mod Sound
pub mod Delivered
pub mod Relay
pub mod Polled
mod Tests
use tradecast.Prelude.{
  ℕ, zero, suc, Bool, Option, none, some, List, [], ◌∷◌, Text, Json, Result, ok, err, Fault,
}
use tradecast.Types.{Uuid, Nanos, Job}
use tradecast.Config.{AuthConfig, WorkerConfig, NotifyConfig}
use tradecast.Platform.{Platform}
use tradecast.World.{World}
use tradecast.Cache.{Critical}
use tradecast.Cache.Queue.{Pipeline, dequeue_job}
use tradecast.Auth.Jwt.{Tokens}
use tradecast.Notify.{Wire}
use tradecast.Consumer
use tradecast.Consumer.{cleanup_tick}
use tradecast.Worker.{Envs, handlers}
use tradecast.Symbols
use tradecast.Symbols.{Manager, sync}
use tradecast.Server.Respond.{Http, Context, respond}
use tradecast.System.Pieces.{Flight, fetched, advance}

-- The databases, the jobs that goroutines of the worker hold, and the symbol manager.
pub record System : Type 0 where
  pub world : World
  pub flights : List Flight
  pub manager : Manager

-- What can happen next:
--   request: the server answers a request
--   fetch: a consumer of the symbol takes its oldest job, or fails to
--   proceed: the goroutine that holds the job of that position does its next piece of work
--   clean: a tick of the cleanup over those symbols
--   crash: the worker stops, and with it all its goroutines
--   resync: a tick of the symbol manager
pub data Event : Type 0 where
  request : Context → Http → Event
  fetch : Bool → Text → Event
  proceed : ℕ → Consumer.Faults → Uuid → Envs → Event
  clean : Bool → (Json Job → Pipeline) → Nanos → Nanos → List Text → Event
  crash : Event
  resync : (List Text → List Text) → Symbols.Faults → Nanos → Event

-- what follows DequeueJob
unfoldable pub taken : Text → System → Result Fault (Option (Json Job)) × Critical → System
taken symbol s (err x, c) = record s { world = record s.world { critical = c } }
taken symbol s (ok none, c) = record s { world = record s.world { critical = c } }
taken symbol s (ok (some raw), c) = record s {
  world = record s.world { critical = c };
  flights = fetched symbol raw ∷ s.flights;
}

-- a goroutine ends with its job
abbrev pub landed : Option Flight × World → List Flight → List Flight × World
landed (none, w) fs = (fs, w)
landed (some f, w) fs = (f ∷ fs, w)

module _ (p : Platform) (wire : Wire) (worker : WorkerConfig) (notify : NotifyConfig) where
  -- the goroutine that holds the job of that position, if there is one
  unfoldable pub proceed_nth :
      ℕ → Consumer.Faults → Uuid → Envs → List Flight → World → List Flight × World
  proceed_nth n f id envs [] w = ([], w)
  proceed_nth zero f id envs (x ∷ xs) w =
      landed (advance worker (handlers p wire notify envs) f id x w) xs
  proceed_nth (suc n) f id envs (x ∷ xs) w =
      let (xs', w') = proceed_nth n f id envs xs w in (x ∷ xs', w')

  module _ (t : Tokens) (auth : AuthConfig) where
    unfoldable pub step : Event → System → System
    step (request x h) s = record s { world = (respond p t auth x h s.world).1 }
    step (fetch fault symbol) s = taken symbol s (dequeue_job fault symbol s.world.critical)
    step (proceed n f id envs) s =
        let (flights, w) = proceed_nth n f id envs s.flights s.world in
        record s { world = w; flights = flights }
    step (clean fault nack_fault now threshold symbols) s = record s {
      world = record s.world {
        critical = cleanup_tick fault nack_fault now threshold symbols s.world.critical;
      };
    }
    step crash s = record s { flights = [] }
    step (resync order f now) s =
        let (m, w) = sync order f now (s.manager, s.world) in record s { world = w; manager = m }

    -- a history, from its first event
    unfoldable pub run : List Event → System → System
    run [] s = s
    run (e ∷ es) s = run es (step e s)
