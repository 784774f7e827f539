-- ===== src/Cache/Signals.antt =====
-- The latest signal of each symbol and the deduplication marks of internal/cache/cache.go.
use tradecast.Prelude.{
  ◌+◌, Bool, not, true, false, Option, none, some, ℤ, Text, text_eq, Json, doc, Result, ok, err,
  Fault, unavailable, ltb, ltb_ℤ, ◌&&◌, if◌then◌else◌,
}
use tradecast.Types.{Nanos, InboundSignal}
use tradecast.Cache.{Critical, assign}

unfoldable pub set_latest_signal : Bool → Text → InboundSignal → Critical → Critical
set_latest_signal fault symbol payload c =
    if fault then c else record c { latest = assign symbol (some (doc payload)) c.latest }

-- `ok none`: redis.Nil
unfoldable pub get_latest_signal :
    Bool → Text → Critical → Result Fault (Option (Json InboundSignal))
get_latest_signal fault symbol c = if fault then err unavailable else ok (c.latest symbol)

-- Two signed numbers are the same number.
unfoldable pub eq_ℤ : ℤ → ℤ → Bool
eq_ℤ a b = not (ltb_ℤ a b) && not (ltb_ℤ b a)

-- A mark that has not expired.
abbrev pub is_marked : Nanos → Option Nanos → Bool
is_marked now none = false
is_marked now (some expires) = ltb now expires

-- SETNX dedup:<ticket>:<type> with a time to live. `ok true`: not seen before.
unfoldable pub set_dedup : Bool → Nanos → ℤ → Text → Nanos → Critical → Result Fault Bool × Critical
unfolding eq_ℤ
set_dedup fault now ticket kind ttl c =
    let mark = λ (t : ℤ) (k : Text).
      if eq_ℤ ticket t && text_eq kind k then some (now + ttl) else c.dedup t k in
    if fault
    then (err unavailable, c)
    else if is_marked now (c.dedup ticket kind)
    then (ok false, c)
    else (ok true, record c { dedup = mark })
