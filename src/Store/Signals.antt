-- ===== src/Store/Signals.antt =====
-- InsertSignal and ListSignals of internal/store/store.go.
use tradecast.Prelude.{
  ◌+◌, ◌*◌, ◌/◌, ℤ, pos, negsuc, sub_ℕ, ltb_ℤ, pos_part, ◌||◌, Bool, List, ◌∷◌, take, drop, Result,
  ok, err, if◌then◌else◌,
}
use tradecast.Types.{Uuid, Nanos}
use tradecast.Store.{Signal, SignalRow, Db, StoreError, driver}

-- The nearest multiple of 10 ^ -4, half away from zero.
unfoldable pub round_lot : ℤ → ℤ
round_lot (pos n) = pos ((n + 5_000) / 10_000 * 10_000)
round_lot (negsuc n) = sub_ℕ 0 ((n + 5_001) / 10_000 * 10_000)

-- What the columns keep of a signal: the prices are NUMERIC(20,8) and the lot is NUMERIC(20,4), to
-- which Postgres rounds. A number with too many digits is refused, which is a failure of the INSERT.
unfoldable pub column : Signal → Signal
column sig = record sig { lot = round_lot sig.lot }

unfoldable pub insert_signal : Bool → Uuid → Nanos → Signal → Db → Result StoreError Uuid × Db
insert_signal fault id now sig db =
    let row : SignalRow = record { id = id; signal = column sig; received_at = now } in
    if fault then (err driver, db) else (ok id, record db { signals = row ∷ db.signals })

-- `order` is the order in which Postgres puts the rows for this one query, with ORDER BY received_at
-- DESC: rows of equal time may come in another order at the next query, which has an `order` of its
-- own. Postgres refuses a LIMIT or an OFFSET below zero.
unfoldable pub list_signals :
    (List SignalRow → List SignalRow) → Bool → ℤ → ℤ → Db → Result StoreError (List SignalRow)
list_signals order fault limit offset db =
    if fault || ltb_ℤ limit (pos 0) || ltb_ℤ offset (pos 0)
    then err driver
    else ok (take (pos_part limit) (drop (pos_part offset) (order db.signals)))
