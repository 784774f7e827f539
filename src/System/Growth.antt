-- ===== src/System/Growth.antt =====
-- The jobs of internal/queue/consumer.go stay genuine when nothing of them changes, and when the
-- table of signals of internal/store/store.go grows.
use tradecast.Prelude.{
  ◌≡◌, inr, Option, none, some, List, ◌∷◌, Text, Json, doc, quoted, Every, Every-weaken,
}
use tradecast.Types.{Uuid, InboundSignal, Job}
use tradecast.Config.{AuthConfig}
use tradecast.Platform.{Platform}
use tradecast.World.{World}
use tradecast.World.Frame.{Keeps}
use tradecast.Cache.{Critical}
use tradecast.Store.{SignalRow}
use tradecast.Store.Signals.{column}
use tradecast.Signal.{stored}
use tradecast.System.Genuine.{IsSigned, IsGenuine, Genuine, Latest, IsSound, AllSigned, InHand}
use tradecast.System.Pieces.{Flight, fetched, working, waiting}

module _ (p : Platform) (cfg : AuthConfig) where
  -- The rows, the jobs, the dead letters and the latest signals, and the jobs in hand, are genuine.
  pub record Holds (w : World) (flights : List Flight) : Type 0 where
    pub lists : IsSound p cfg w.db.signals w.critical
    pub rows : AllSigned p cfg w.db.signals
    pub hands : Every (InHand p cfg w.db.signals) flights

  pub Keeps-Holds :
      (w w' : World) (flights : List Flight) → Keeps w w' → Holds w flights → Holds w' flights
  Keeps-Holds w w' flights (s, q, pr, d, l) h = record {
    lists = record {
      queued = λ symbol. rw (s, q) (h.lists.queued symbol);
      processed = λ symbol. rw (s, pr) (h.lists.processed symbol);
      dead = rw (s, d) h.lists.dead;
      latest = λ symbol. rw (s, l) (h.lists.latest symbol);
    };
    rows = rw s h.rows;
    hands = rw s h.hands;
  }

  module _ (row : SignalRow) (rows : List SignalRow) where
    IsGenuine-cons :
        (symbol : Text) (id : Uuid) (sig : InboundSignal)
        → IsGenuine p cfg rows symbol id sig
        → IsGenuine p cfg (row ∷ rows) symbol id sig
    IsGenuine-cons symbol id sig g = record { signed = g.signed; place = g.place; row = inr g.row }

    Genuine-cons :
        (symbol : Text) (raw : Json Job)
        → Genuine p cfg rows symbol raw
        → Genuine p cfg (row ∷ rows) symbol raw
    Genuine-cons symbol (doc job) g = IsGenuine-cons symbol job.signal_id job.signal g
    Genuine-cons symbol (quoted b) g = Genuine-cons symbol b g
    Genuine-cons symbol (Json.other t) g = absurd g

    Latest-cons :
        (symbol : Text) (o : Option (Json InboundSignal))
        → Latest p cfg rows symbol o
        → Latest p cfg (row ∷ rows) symbol o
    Latest-cons symbol none g = tt
    Latest-cons symbol (some (doc sig)) (id, g) = (id, IsGenuine-cons symbol id sig g)
    Latest-cons symbol (some (quoted b)) g = absurd g
    Latest-cons symbol (some (Json.other t)) g = absurd g

    InHand-cons : (x : Flight) → InHand p cfg rows x → InHand p cfg (row ∷ rows) x
    InHand-cons (fetched symbol raw) g = Genuine-cons symbol raw g
    InHand-cons (working symbol raw job left last) (same, g, spared) =
        (same, IsGenuine-cons symbol job.signal_id job.signal g, spared)
    InHand-cons (waiting symbol job) g = IsGenuine-cons symbol job.signal_id job.signal g

    pub IsSound-cons : (c : Critical) → IsSound p cfg rows c → IsSound p cfg (row ∷ rows) c
    IsSound-cons c s = record {
      queued = λ symbol. Every-weaken _ _ (c.queue symbol) (Genuine-cons symbol) (s.queued symbol);
      processed = λ symbol.
          Every-weaken _ _ (c.processing symbol) (Genuine-cons symbol) (s.processed symbol);
      dead =
          Every-weaken _ _ c.dead_letter (λ raw (symbol, g). (symbol, Genuine-cons symbol raw g))
            s.dead;
      latest = λ symbol. Latest-cons symbol (c.latest symbol) (s.latest symbol);
    }

    -- with the job of a new row, of a signed signal
    pub Holds-cons :
        (w : World) (flights : List Flight) (critical : Critical) (sig : InboundSignal)
        → w.db.signals ≡ rows
        → Holds w flights
        → IsSigned p cfg sig
        → row.signal ≡ column (stored sig)
        → IsSound p cfg (row ∷ rows) critical
        → Holds
            (record w { db = record w.db { signals = row ∷ rows }; critical = critical })
            flights
    Holds-cons w flights critical sig same h signed stores s = record {
      lists = s;
      rows = ((sig, signed, stores), rw (← same) h.rows);
      hands = Every-weaken _ _ flights InHand-cons (rw (← same) h.hands);
    }
