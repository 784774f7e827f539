-- ===== src/System/Genuine.antt =====
-- What the jobs of internal/queue/consumer.go stem from: a request that internal/signal/handler.go
-- found to be signed.
use tradecast.Prelude.{◌≡◌, ◌⊎◌, Option, none, some, List, [], ◌∷◌, Text, Json, doc, quoted, Every}
use tradecast.Types.{Uuid, InboundSignal, Job}
use tradecast.Config.{AuthConfig}
use tradecast.Platform.{Platform}
use tradecast.Cache.{Critical}
use tradecast.Store.{Signal, SignalRow}
use tradecast.Signal
use tradecast.Store.Signals.{column}
use tradecast.Signal.{Request, normalized, stored}
use tradecast.Signal.Ingest.{IsAuthentic}
use tradecast.Worker.Frame.{Spares}
use tradecast.System.Pieces.{Flight, fetched, working, waiting}

-- A row with that identifier holds that signal.
abbrev pub HasRow : Uuid → Signal → List SignalRow → Type 0
HasRow id sig [] = ⊥
HasRow id sig (r ∷ rs) = ((r.id ≡ id) × (r.signal ≡ sig)) ⊎ HasRow id sig rs

module _ (p : Platform) (cfg : AuthConfig) where
  -- Some request was authentic, and this is its signal, under the normal symbol.
  pub record IsSigned (sig : InboundSignal) : Type 0 where
    pub env : Signal.Env
    pub request : Request
    pub sent : InboundSignal
    pub authentic : IsAuthentic p cfg env request sent
    pub normal : normalized sent ≡ sig

  -- The signal is signed, is one of that symbol, and is a row of the table, as the columns keep it.
  pub record IsGenuine (rows : List SignalRow) (symbol : Text) (id : Uuid) (sig : InboundSignal)
      : Type 0 where
    pub signed : IsSigned sig
    pub place : sig.symbol ≡ symbol
    pub row : HasRow id (column (stored sig)) rows

  -- The bytes hold a job with such a signal; the bytes of a retry do so in base64.
  abbrev pub Genuine : List SignalRow → Text → Json Job → Type 0
  Genuine rows symbol (doc job) = IsGenuine rows symbol job.signal_id job.signal
  Genuine rows symbol (quoted b) = Genuine rows symbol b
  Genuine rows symbol (Json.other t) = ⊥

  -- a job in the hands of the worker: the bytes hold it, and the handlers are harmless
  abbrev pub InHand : List SignalRow → Flight → Type 0
  InHand rows (fetched symbol raw) = Genuine rows symbol raw
  InHand rows (working symbol raw job left last) =
      (raw ≡ doc job) × IsGenuine rows symbol job.signal_id job.signal × Every Spares left
  InHand rows (waiting symbol job) = IsGenuine rows symbol job.signal_id job.signal

  -- a dead letter, which does not keep its symbol apart
  abbrev pub Dead : List SignalRow → Json Job → Type 0
  Dead rows raw = (symbol : Text) × Genuine rows symbol raw

  -- the latest signal of a symbol
  abbrev pub Latest : List SignalRow → Text → Option (Json InboundSignal) → Type 0
  Latest rows symbol none = Unit
  Latest rows symbol (some (doc sig)) = (id : Uuid) × IsGenuine rows symbol id sig
  Latest rows symbol (some (quoted b)) = ⊥
  Latest rows symbol (some (Json.other t)) = ⊥

  -- All that the queues, the lists of jobs in work, the dead letters and the latest signals hold is
  -- genuine.
  pub record IsSound (rows : List SignalRow) (c : Critical) : Type 0 where
    pub queued : (symbol : Text) → Every (Genuine rows symbol) (c.queue symbol)
    pub processed : (symbol : Text) → Every (Genuine rows symbol) (c.processing symbol)
    pub dead : Every (Dead rows) c.dead_letter
    pub latest : (symbol : Text) → Latest rows symbol (c.latest symbol)

  -- the same of the rows of the table
  abbrev pub AllSigned : List SignalRow → Type 0
  AllSigned rows =
      Every (λ r. (sig : InboundSignal) × IsSigned sig × (r.signal ≡ column (stored sig))) rows
