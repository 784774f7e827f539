-- ===== src/Signal/Altered.antt =====
-- What the signature of POST /signal does not cover (`Receive` of internal/signal/handler.go).
use tradecast.Prelude.{◌+◌, ◌<◌, ◌≡◌, refl, sym, none, doc}
use tradecast.Types.{InboundSignal}
use tradecast.Config.{AuthConfig}
use tradecast.Platform.{Platform}
use tradecast.World.{World}
use tradecast.Signal.{
  Faults, Env, Request, duplicate, normalized, normalize_symbol, validate, receive,
}
use tradecast.Signal.Ingest.{IsAuthentic}
use tradecast.Signal.Accept.{no_faults, IsAccepted, receive-IsAccepted}
use tradecast.Signal.Replay.{IsFresh, receive_once}

-- The same ticket, type and normal symbol.
pub record IsAlike (sig sig' : InboundSignal) : Type 0 where
  pub ticket : sig'.ticket_id ≡ sig.ticket_id
  pub kind : sig'.signal_type ≡ sig.signal_type
  pub symbol : normalize_symbol sig'.symbol ≡ normalize_symbol sig.symbol

-- The headers of a request with another body.
abbrev pub altered : Request → InboundSignal → Request
altered r sig = record r { body = doc sig }

altered-IsAuthentic :
    (p : Platform) (cfg : AuthConfig) (e : Env) (r : Request) (sig sig' : InboundSignal)
    → IsAuthentic p cfg e r sig
    → IsAlike sig sig'
    → validate sig' ≡ none
    → IsAuthentic p cfg e (altered r sig') sig'
altered-IsAuthentic p cfg e r sig sig' a alike valid = record {
  headers = a.headers;
  body = refl;
  valid = valid;
  verified = rw (alike.ticket, alike.kind, alike.symbol) a.verified;
}

-- If no call fails: whoever sees a request that the server would accept can send its headers with
-- another valid signal for the same ticket, type and symbol, whatever its direction, price, stops
-- and lot. The server accepts that signal, and answers the original, when it comes within the time
-- to live of the mark and is still authentic then, `duplicate`, whichever calls fail.
pub receive-altered :
    (p : Platform) (f : Faults) (cfg : AuthConfig) (e e' : Env) (r : Request)
    (sig sig' : InboundSignal) (w : World)
    → IsAuthentic p cfg e r sig
    → IsAuthentic p cfg e' r sig
    → IsFresh e sig w
    → IsAlike sig sig'
    → validate sig' ≡ none
    → e'.now < e.now + cfg.deduplicate_ttl
    → let after = receive p no_faults cfg e (altered r sig') w in
      IsAccepted e (normalized sig') w after × (receive p f cfg e' r after.1 ≡ (duplicate, after.1))
receive-altered p f cfg e e' r sig sig' w a a' fresh alike valid soon =
    let forged = altered-IsAuthentic p cfg e r sig sig' a alike valid in
    let fresh' : IsFresh e sig' w = rw (alike.ticket, alike.kind) fresh in
    (
      receive-IsAccepted p cfg e (altered r sig') sig' w forged fresh',
      receive_once p no_faults f cfg e e' (altered r sig') r sig' sig w forged a' (sym alike.ticket)
          (sym alike.kind) fresh' refl soon,
    )
