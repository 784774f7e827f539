-- ===== src/Store/Symbols.antt =====
-- The statements on watched_symbols of internal/store/store.go.
use tradecast.Prelude.{
  Bool, true, List, [], ◌∷◌, Text, codes, text_eq, to_upper, trim_space, Result, ok, err, select,
  any, map, update_where, delete_where, if◌then◌else◌,
}
use tradecast.Types.{Uuid, Nanos}
use tradecast.Store.{WatchedSymbol, Db, StoreError, driver, not_found}

abbrev pub default_symbols : List Text
default_symbols =
    codes "EURUSD"
    ∷ codes "GBPUSD"
    ∷ codes "USDJPY"
    ∷ codes "XAUUSD"
    ∷ codes "USDCHF"
    ∷ codes "AUDUSD"
    ∷ codes "USDCAD"
    ∷ codes "NZDUSD"
    ∷ codes "GBPJPY"
    ∷ codes "EURJPY"
    ∷ codes "XAGUSD"
    ∷ codes "BTCUSD"
    ∷ []

abbrev pub or_default : List Text → List Text
or_default [] = default_symbols
or_default (s ∷ ss) = s ∷ ss

abbrev pub has_symbol : Text → WatchedSymbol → Bool
has_symbol symbol w = text_eq w.symbol symbol

-- `order` is the collation of ORDER BY symbol.
unfoldable pub list_active_symbols :
    (List Text → List Text) → Bool → Db → Result StoreError (List Text)
list_active_symbols order fault db =
    if fault
    then err driver
    else ok (or_default (order (map (λ w. w.symbol) (select (λ w. w.active) db.watched_symbols))))

-- `order` is ORDER BY symbol.
unfoldable pub list_all_symbols :
    (List WatchedSymbol → List WatchedSymbol) → Bool → Db → Result StoreError (List WatchedSymbol)
list_all_symbols order fault db = if fault then err driver else ok (order db.watched_symbols)

-- INSERT … ON CONFLICT (symbol) DO UPDATE SET active=TRUE
unfoldable pub upsert_symbol : Uuid → Nanos → Text → Db → Db
upsert_symbol id now symbol db =
    let row : WatchedSymbol = record {
      id = id;
      symbol = symbol;
      active = true;
      created_at = now;
    } in
    record db {
      watched_symbols =
          if any (has_symbol symbol) db.watched_symbols
          then update_where (has_symbol symbol) (λ w. record w { active = true }) db.watched_symbols
          else row ∷ db.watched_symbols;
    }

unfoldable pub add_symbol : Bool → Uuid → Nanos → Text → Db → Result StoreError Unit × Db
unfolding upsert_symbol
add_symbol fault id now symbol db =
    if fault
    then (err driver, db)
    else (ok tt, upsert_symbol id now (to_upper (trim_space symbol)) db)

unfoldable pub set_symbol_active : Bool → Text → Bool → Db → Result StoreError Unit × Db
set_symbol_active fault symbol active db =
    let rows =
      update_where (has_symbol symbol) (λ w. record w { active = active }) db.watched_symbols in
    if fault
    then (err driver, db)
    else if any (has_symbol symbol) db.watched_symbols
    then (ok tt, record db { watched_symbols = rows })
    else (err not_found, db)

unfoldable pub delete_symbol : Bool → Text → Db → Result StoreError Unit × Db
delete_symbol fault symbol db =
    let rows = delete_where (has_symbol symbol) db.watched_symbols in
    if fault
    then (err driver, db)
    else if any (has_symbol symbol) db.watched_symbols
    then (ok tt, record db { watched_symbols = rows })
    else (err not_found, db)
