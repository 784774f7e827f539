-- ===== src/System/Delivered.antt =====
-- What the worker of internal/queue/consumer.go delivers, and what internal/signal/handler.go shows
-- to those who poll: no signal that nobody signed.
use tradecast.Prelude.{
  ◌≡◌, ◌-◌, ◌≤◌, ◌<◌, ◌⊎◌, inl, inr, Bool, Option, none, some, Option-cases, List, [], ◌∷◌, ◌++◌,
  Text, to_upper, format_int, Json, doc, unmarshal, Every, arith,
}
use tradecast.Types.{Uuid, Nanos, InboundSignal, Job}
use tradecast.Config.{AuthConfig, WorkerConfig, NotifyConfig}
use tradecast.Platform.{Platform}
use tradecast.World.{World}
use tradecast.Cache.Signals.{get_latest_signal}
use tradecast.Store.{SignalRow}
use tradecast.Auth.Hmac.{duration_mod, generate_signal_hmac}
use tradecast.Auth.Hmac.Window.{distance, verify_signal_hmac_iff}
use tradecast.Auth.Jwt.{Tokens}
use tradecast.Notify.{Wire}
use tradecast.Consumer.{Handler}
use tradecast.Store.Signals.{column}
use tradecast.Signal.{Request, Pending, normalized, stored, get_pending}
use tradecast.System.{System, Event, run}
use tradecast.System.Genuine.{HasRow, IsSigned, IsGenuine, Latest}
use tradecast.System.Pieces.{Flight, working}
use tradecast.System.Sound.{IsEmpty, run-IsSafe}

-- The request that a signal of that symbol stems from: its body holds the signal, and its signature
-- is the one that GenerateSignalHMAC makes under the server's secret for the signal's ticket, type
-- and symbol and the request's timestamp, which lay within the time to live when it came, or too far
-- in the future for a duration.
pub record IsSent (p : Platform) (auth : AuthConfig) (sig : InboundSignal) : Type 0 where
  pub now : Nanos
  pub request : Request
  pub sent : InboundSignal
  pub body : unmarshal request.body ≡ some sent
  pub normal : normalized sent ≡ sig
  pub signature :
      request.signature
      ≡ generate_signal_hmac p auth.signal_hmac_secret
          (format_int sig.ticket_id)
          sig.signal_type
          sig.symbol
          request.timestamp
  pub timestamp : Nanos
  pub parsed : p.parse_rfc3339 request.timestamp ≡ some timestamp
  pub recent :
      (distance now timestamp ≤ auth.signal_timestamp_ttl) ⊎ (duration_mod ≤ timestamp - now)

module _ (p : Platform) (auth : AuthConfig)
    (ttl : auth.signal_timestamp_ttl < duration_mod - 1) where
  signed-IsSent : (sig : InboundSignal) → IsSigned p auth sig → IsSent p auth sig
  signed-IsSent sig s =
      let (at_time, parsed, recent, same) =
        (verify_signal_hmac_iff p s.env.now auth.signal_hmac_secret (format_int s.sent.ticket_id)
            s.sent.signal_type (normalized s.sent).symbol s.request.timestamp s.request.signature
            auth.signal_timestamp_ttl ttl).0
          s.authentic.verified in
      record {
        now = s.env.now;
        request = s.request;
        sent = s.sent;
        body = s.authentic.body;
        normal = s.normal;
        signature = rw (← s.normal) same;
        timestamp = at_time;
        parsed = parsed;
        recent = recent;
      }

  Every-middle :
      (P : Flight → Type 0) (xs ys : List Flight) (x : Flight) → Every P (xs ++ x ∷ ys) → P x
  Every-middle P [] ys x h = h.0
  Every-middle P (y ∷ xs) ys x h = Every-middle P xs ys x h.1

  Latest-found :
      (rows : List SignalRow) (symbol : Text) (o : Option (Json InboundSignal))
      (b : Json InboundSignal)
      → Latest p auth rows symbol o
      → o ≡ some b
      → (sig : InboundSignal) × (b ≡ doc sig) × (id : Uuid) × IsGenuine p auth rows symbol id sig
  Latest-found rows symbol none b h e = absurd (ground (arith, e))
  Latest-found rows symbol (some (doc sig)) b (id, g) e = (sig, ground (arith, e), id, g)
  Latest-found rows symbol (some (Json.quoted c)) b h e = absurd h
  Latest-found rows symbol (some (Json.other t)) b h e = absurd h

  pending-found :
      (fault : Bool) (path : Text) (w : World) (b : Json InboundSignal)
      → get_pending fault path w ≡ Pending.found b
      → w.critical.latest (to_upper path) ≡ some b
  unfolding get_pending get_latest_signal
  pending-found fault path w b h = elim (Option-cases (w.critical.latest (to_upper path))) [
    | inl e ↦ absurd (ground (arith, h, e))
    | inr (b', e) ↦ ground (arith, h, e)
  ]

  module _ (t : Tokens) (wire : Wire) (worker : WorkerConfig) (notify : NotifyConfig)
      (es : List Event) (s : System) (start : IsEmpty s) where
    abbrev now_state : System
    now_state = run p wire worker notify t auth es s

    -- With a time to live of signatures below the largest duration, whatever happened before, and
    -- whatever failed, from a time when there was no signal and no job: a job that the worker has for
    -- its handlers is one of the symbol whose queue it comes from, its signal is a row of the table
    -- under the job's identifier, with the lot as the column rounds it, and a request with the
    -- server's signature sent it.
    pub delivered-IsSent :
        (before after : List Flight) (symbol : Text) (raw : Json Job) (job : Job)
        (left : List Handler) (last : Option Text)
        → (run p wire worker notify t auth es s).flights
          ≡ before ++ working symbol raw job left last ∷ after
        → IsSent p auth job.signal
          × (job.signal.symbol ≡ symbol)
          × HasRow job.signal_id
              (column (stored job.signal))
              (run p wire worker notify t auth es s).world.db.signals
    delivered-IsSent before after symbol raw job left last here =
        let hands = (run-IsSafe p auth t wire worker notify es s start).hands in
        let (_, g, _) =
          Every-middle _ before after (working symbol raw job left last) (rw here at hands) in
        (signed-IsSent job.signal g.signed, g.place, g.row)

    -- With a time to live of signatures below the largest duration, whatever happened before, and
    -- whatever failed, from a time when there was no signal and no job: what a poll of a symbol finds
    -- is a signal of that symbol in capitals, which is a row of the table, with the lot as the column
    -- rounds it, and which a request with the server's signature sent.
    pub polled-IsSent :
        (fault : Bool) (path : Text) (b : Json InboundSignal)
        → get_pending fault path (run p wire worker notify t auth es s).world ≡ Pending.found b
        → (sig : InboundSignal) × (b ≡ doc sig)
          × IsSent p auth sig
          × (sig.symbol ≡ to_upper path)
          × ((id : Uuid) × HasRow id
                (column (stored sig))
                (run p wire worker notify t auth es s).world.db.signals)
    polled-IsSent fault path b h =
        let w = (run p wire worker notify t auth es s).world in
        let (sig, same, id, g) =
          Latest-found w.db.signals (to_upper path) (w.critical.latest (to_upper path)) b
            ((run-IsSafe p auth t wire worker notify es s start).lists.latest (to_upper path))
            (pending-found fault path w b h) in
        (sig, same, signed-IsSent sig g.signed, g.place, (id, g.row))
