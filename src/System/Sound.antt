-- ===== src/System/Sound.antt =====
-- Whatever happens to the server and the worker: what they queue, deliver and show stems from
-- requests that were signed.
use tradecast.Prelude.{
  ◌≡◌, refl, inl, inr, Option, none, some, List, [], ◌∷◌, Text, Json, Result, ok, err, Fault, arith,
}
use tradecast.Types.{Nanos, Job}
use tradecast.Config.{AuthConfig, WorkerConfig, NotifyConfig}
use tradecast.Platform.{Platform}
use tradecast.World.{World}
use tradecast.World.Frame.{Keeps, Keeps-refl}
use tradecast.Cache.{Critical}
use tradecast.Cache.SymbolList.{get_symbol_list, set_symbol_list}
use tradecast.Store.{StoreError}
use tradecast.Auth.Jwt.{Tokens}
use tradecast.Notify.{Wire}
use tradecast.Symbols
use tradecast.Symbols.{Manager, cached_symbols, cache_loaded, load_cached, load, sync}
use tradecast.Server.Respond.{Http, Context, env_of, request_of, respond}
use tradecast.Server.Frame.Posts.{respond-cases}
use tradecast.System.{
  System, Event, request, fetch, proceed, clean, crash, resync, taken, step, run,
}
use tradecast.System.Genuine.{IsGenuine, Latest, InHand}
use tradecast.System.Lists.{Fetched, dequeue_job-Sound, cleanup_tick-Sound}
use tradecast.System.Growth.{Holds, Keeps-Holds}
use tradecast.System.Receive.{receive-Holds}
use tradecast.System.Work.{critical-Holds}
use tradecast.System.Proceed.{proceed_nth-Holds}

cache_loaded-Keeps :
    (f : Symbols.Faults) (now : Nanos) (w : World) (r : Result StoreError (List Text))
    → Keeps w (cache_loaded f now w r).1
unfolding cache_loaded set_symbol_list
cache_loaded-Keeps f now w (err e) = Keeps-refl w
cache_loaded-Keeps f now w (ok symbols) =
    (refl, ground arith, ground arith, ground arith, ground arith)

load_cached-Keeps :
    (order : List Text → List Text) (f : Symbols.Faults) (now : Nanos) (w : World)
    (symbols : List Text)
    → Keeps w (load_cached order f now w symbols).1
unfolding load_cached
load_cached-Keeps order f now w [] = cache_loaded-Keeps f now w _
load_cached-Keeps order f now w (s ∷ ss) = Keeps-refl w

-- Nothing was sent yet: there are no signals and no jobs. Keys, subscribers and symbols there may be.
pub record IsEmpty (s : System) : Type 0 where
  pub signals : s.world.db.signals ≡ []
  pub queue : (symbol : Text) → s.world.critical.queue symbol ≡ []
  pub processing : (symbol : Text) → s.world.critical.processing symbol ≡ []
  pub dead_letter : s.world.critical.dead_letter ≡ []
  pub latest : (symbol : Text) → s.world.critical.latest symbol ≡ none
  pub flights : s.flights ≡ []

module _ (p : Platform) (auth : AuthConfig) where
  -- the invariant
  abbrev pub IsSafe : System → Type 0
  IsSafe s = Holds p auth s.world s.flights

  IsEmpty-IsSafe : (s : System) → IsEmpty s → IsSafe s
  IsEmpty-IsSafe s e = record {
    lists = record {
      queued = λ symbol. rw (e.queue symbol) tt;
      processed = λ symbol. rw (e.processing symbol) tt;
      dead = rw e.dead_letter tt;
      latest = λ symbol. rw (e.latest symbol) tt;
    };
    rows = rw e.signals tt;
    hands = rw e.flights tt;
  }

  taken-IsSafe :
      (symbol : Text) (s : System) (r : Result Fault (Option (Json Job)) × Critical)
      → IsSafe s
      → tradecast.System.Genuine.IsSound p auth s.world.db.signals r.1
        × Fetched p auth s.world.db.signals symbol r.0
      → IsSafe (taken symbol s r)
  unfolding taken
  taken-IsSafe symbol s (err x, c) h (k, g) = critical-Holds p auth s.flights s.world c k h
  taken-IsSafe symbol s (ok none, c) h (k, g) = critical-Holds p auth s.flights s.world c k h
  taken-IsSafe symbol s (ok (some raw), c) h (k, g) =
      let kept = critical-Holds p auth s.flights s.world c k h in
      record { lists = kept.lists; rows = kept.rows; hands = (g, kept.hands) }

  module _ (t : Tokens) (wire : Wire) (worker : WorkerConfig) (notify : NotifyConfig) where
    respond-IsSafe :
        (x : Context) (h : Http) (s : System)
        → IsSafe s
        → IsSafe (record s { world = (respond p t auth x h s.world).1 })
    respond-IsSafe x h s i = elim (respond-cases p t auth x h s.world) [
      | inl kept ↦ Keeps-Holds p auth s.world _ s.flights kept i
      | inr r ↦ rw r.result (
          receive-Holds p auth x.signal (env_of x) s.flights (request_of h) r.before
            (Keeps-Holds p auth s.world r.before s.flights r.kept i))
    ]

    step-IsSafe :
        (e : Event) (s : System) → IsSafe s → IsSafe (step p wire worker notify t auth e s)
    unfolding step sync load
    step-IsSafe (request x h) s i = respond-IsSafe x h s i
    step-IsSafe (fetch fault symbol) s i =
        taken-IsSafe symbol s _ i
          (dequeue_job-Sound p auth s.world.db.signals fault symbol s.world.critical i.lists)
    step-IsSafe (proceed n f id envs) s i =
        proceed_nth-Holds p auth worker f id wire notify envs n s.flights s.world i
    step-IsSafe (clean fault nack_fault now threshold symbols) s i =
        critical-Holds p auth s.flights s.world _
          (cleanup_tick-Sound p auth s.world.db.signals fault nack_fault now threshold symbols
            s.world.critical i.lists)
          i
    step-IsSafe crash s i = record { lists = i.lists; rows = i.rows; hands = tt }
    step-IsSafe (resync order f now) s i =
        Keeps-Holds p auth s.world _ s.flights
          (load_cached-Keeps order f now s.world
            (cached_symbols (get_symbol_list f.cache_get now s.world.critical)))
          i

    run_keeps :
        (es : List Event) (s : System) → IsSafe s → IsSafe (run p wire worker notify t auth es s)
    unfolding run
    run_keeps [] s i = i
    run_keeps (e ∷ es) s i = run_keeps es (step p wire worker notify t auth e s) (step-IsSafe e s i)

    -- Whatever happens, in whatever order, and whatever fails, from a time when there was no signal
    -- and no job: each job in a queue, in a list of jobs in work, among the dead letters or in the
    -- hands of a goroutine, and each latest signal, holds a signal that some authentic request sent,
    -- under its normal symbol; it is in the lists of that symbol and a row of the table of signals,
    -- with the lot as the column rounds it; and each row of the table is such a signal, so rounded.
    pub run-IsSafe :
        (es : List Event) (s : System)
        → IsEmpty s
        → Holds p auth
            (run p wire worker notify t auth es s).world
            (run p wire worker notify t auth es s).flights
    run-IsSafe es s e = run_keeps es s (IsEmpty-IsSafe s e)
