-- ===== src/Signal.antt =====
-- internal/signal/handler.go: the server's handlers for signals. The children prove what they do.
-- A handler takes which of its calls fail, then what it reads of the outside, and returns its
-- answer with the world after it.
pub mod Validation
pub mod Ingest
pub mod Replay
pub mod Accept
pub mod Polling
pub mod Altered
mod Tests
use tradecast.Prelude.{
  ℕ, ◌||◌, Bool, true, false, Option, none, some, is_nonpos, Text, codes, text_eq, is_empty,
  to_upper, trim_space, before, format_int, Json, unmarshal, Result, ok, err, Fault, if◌then◌else◌,
}
use tradecast.Types.{Uuid, Nanos, InboundSignal, Job}
use tradecast.Config.{AuthConfig}
use tradecast.Platform.{Platform}
use tradecast.World.{World}
use tradecast.Cache.{Critical}
use tradecast.Cache.Queue.{of_job, enqueue_job}
use tradecast.Cache.Signals.{set_latest_signal, get_latest_signal, set_dedup}
use tradecast.Store.{Signal, Db, StoreError}
use tradecast.Store.Signals.{insert_signal}
use tradecast.Auth.Hmac.{HmacError, verify_signal_hmac}

unfoldable pub normalize_symbol : Text → Text
normalize_symbol s = before b'.' (to_upper (trim_space s))

pub data ValidationError : Type 0 where
  ticket_id_required invalid_signal_type symbol_required bad_direction : ValidationError
  price_not_positive lot_not_positive : ValidationError

unfoldable pub is_signal_type : Text → Bool
is_signal_type t =
    text_eq t (codes "OPEN")
    || (text_eq t (codes "MODIFY") || (text_eq t (codes "CLOSE") || text_eq t (codes "PARTIAL")))

unfoldable pub is_direction : Text → Bool
is_direction d = text_eq d (codes "BUY") || text_eq d (codes "SELL")

-- `none`: valid
unfoldable pub validate : InboundSignal → Option ValidationError
validate sig =
    if is_nonpos sig.ticket_id
    then some ticket_id_required
    else if is_signal_type sig.signal_type
    then (if is_empty sig.symbol
        then some symbol_required
        else if is_direction sig.direction
        then (if is_nonpos sig.price
            then some price_not_positive
            else if is_nonpos sig.lot
            then some lot_not_positive
            else none)
        else some bad_direction)
    else some invalid_signal_type

-- The headers and the body of POST /signal.
pub record Request : Type 0 where
  pub signature : Text
  pub timestamp : Text
  pub body : Json InboundSignal

-- Which calls of Receive fail.
pub record Faults : Type 0 where
  pub dedup : Bool
  pub insert : Bool
  pub latest : Bool
  pub enqueue : Bool

-- The clock, and the identifiers that uuid.New gives.
pub record Env : Type 0 where
  pub now : Nanos
  pub signal_id : Uuid
  pub job_id : Uuid

pub data Reply : Type 0 where
  missing_headers invalid_payload duplicate storage_error : Reply
  invalid : ValidationError → Reply
  unauthorized : HmacError → Reply
  accepted : Uuid → Reply

-- the HTTP status
abbrev pub status : Reply → ℕ
status missing_headers = 401
status invalid_payload = 400
status duplicate = 200
status storage_error = 500
status (invalid e) = 400
status (unauthorized e) = 401
status (accepted id) = 200

abbrev pub stored : InboundSignal → Signal
stored sig = record {
  ticket_id = sig.ticket_id;
  signal_type = sig.signal_type;
  symbol = sig.symbol;
  direction = sig.direction;
  price = sig.price;
  sl = sig.sl;
  tp = sig.tp;
  lot = sig.lot;
  source_key_id = none;
}

abbrev pub job_for : Env → Uuid → InboundSignal → Job
job_for e id sig = record {
  job_id = e.job_id;
  signal_id = id;
  signal = sig;
  attempts = 0;
  enqueued_at = e.now;
}

-- what follows InsertSignal
unfoldable pub publish :
    Faults → Env → InboundSignal → World → Result StoreError Uuid × Db → Reply × World
publish f e sig w (err _, db) = (storage_error, record w { db = db })
publish f e sig w (ok id, db) =
    let c = set_latest_signal f.latest sig.symbol sig w.critical in
    let c' = (enqueue_job f.enqueue sig.symbol (of_job (job_for e id sig)) c).1 in
    (accepted id, record w { db = db; critical = c' })

-- what follows SetDedup: an error reads as `isNew == false`
unfoldable pub persist :
    Faults → Env → InboundSignal → World → Result Fault Bool × Critical → Reply × World
persist f e sig w (ok true, c) =
    publish f e sig (record w { critical = c })
      (insert_signal f.insert e.signal_id e.now (stored sig) w.db)
persist f e sig w (ok false, c) = (duplicate, record w { critical = c })
persist f e sig w (err _, c) = (duplicate, record w { critical = c })

-- what follows the verification
unfoldable pub admit : Faults → AuthConfig → Env → InboundSignal → World → Reply × World
admit f cfg e sig w =
    persist f e sig w
      (set_dedup f.dedup e.now sig.ticket_id sig.signal_type cfg.deduplicate_ttl w.critical)

-- the verification of a signal whose symbol is normal
abbrev pub verify : Platform → AuthConfig → Nanos → Request → InboundSignal → Option HmacError
verify p cfg now r sig =
    verify_signal_hmac p now cfg.signal_hmac_secret (format_int sig.ticket_id) sig.signal_type
      sig.symbol r.timestamp r.signature cfg.signal_timestamp_ttl

abbrev pub normalized : InboundSignal → InboundSignal
normalized sig = record sig { symbol = normalize_symbol sig.symbol }

-- what follows the decoding of the body
unfoldable pub receive_signal :
    Platform → Faults → AuthConfig → Env → Request → InboundSignal → World → Reply × World
receive_signal p f cfg e r sig w = elim (validate sig) [
  | some x ↦ (invalid x, w)
  | none ↦ elim (verify p cfg e.now r (normalized sig)) [
    | some x ↦ (unauthorized x, w)
    | none ↦ admit f cfg e (normalized sig) w
  ]
]

unfoldable pub receive : Platform → Faults → AuthConfig → Env → Request → World → Reply × World
receive p f cfg e r w =
    if is_empty r.signature || is_empty r.timestamp
    then (missing_headers, w)
    else elim (unmarshal r.body) [
      | none ↦ (invalid_payload, w)
      | some sig ↦ receive_signal p f cfg e r sig w
    ]

pub data Pending : Type 0 where
  symbol_required cache_error no_content : Pending
  found : Json InboundSignal → Pending

abbrev pub pending_of : Result Fault (Option (Json InboundSignal)) → Pending
pending_of (err e) = cache_error
pending_of (ok none) = no_content
pending_of (ok (some b)) = found b

-- GET /pending/{symbol}
unfoldable pub get_pending : Bool → Text → World → Pending
get_pending fault path w =
    if is_empty (to_upper path)
    then Pending.symbol_required
    else pending_of (get_latest_signal fault (to_upper path) w.critical)
