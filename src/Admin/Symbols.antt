-- ===== src/Admin/Symbols.antt =====
-- The handlers of watched symbols of internal/admin/admin.go.
use tradecast.Prelude.{
  [], Bool, List, Text, codes, is_empty, to_upper, trim_space, Json, unmarshal, Result, ok, err,
  if◌then◌else◌,
}
use tradecast.Types.{Uuid, Nanos}
use tradecast.World.{World}
use tradecast.Cache.SymbolList.{invalidate_symbol_list}
use tradecast.Store.{WatchedSymbol, StoreError, Db}
use tradecast.Store.Symbols
use tradecast.Store.Symbols.{list_all_symbols}
use tradecast.Admin.{Reply, replied, failed, Faults, listed, with_body}

unfoldable pub list_symbols :
    (List WatchedSymbol → List WatchedSymbol) → Faults → World → Reply (List WatchedSymbol)
list_symbols order f w = listed (codes "store error") (list_all_symbols order f.read w.db)

-- after the statement: on success the cached list is deleted
abbrev pub changed :
    {A : Type 0}
    → Faults
    → Reply A
    → Reply A
    → World
    → Result StoreError Unit × Db
    → Reply A × World
changed f good bad w (err _, db) = (bad, record w { db = db })
changed f good bad w (ok _, db) =
    (good, record w { db = db; critical = invalidate_symbol_list f.cache w.critical })

unfoldable pub add_symbol : Faults → Nanos → Uuid → Json Text → World → Reply Text × World
add_symbol f now id body w = with_body (unmarshal body) w (λ s.
    let symbol = to_upper (trim_space s) in
    if is_empty symbol
    then (failed 400 (codes "symbol required"), w)
    else changed f (replied 201 symbol) (failed 500 (codes "store error")) w
        (Symbols.add_symbol f.write id now symbol w.db))

-- The body of a 404 is the message of the error, which is left out.
unfoldable pub set_symbol_active : Faults → Text → Json Bool → World → Reply (Text × Bool) × World
set_symbol_active f path body w =
    let symbol = to_upper path in
    if is_empty symbol
    then (failed 400 (codes "symbol required"), w)
    else with_body (unmarshal body) w (λ active.
      changed f (replied 200 (symbol, active)) (failed 404 []) w
        (Symbols.set_symbol_active f.write symbol active w.db))

unfoldable pub delete_symbol : Faults → Text → World → Reply Text × World
delete_symbol f path w =
    let symbol = to_upper path in
    if is_empty symbol
    then (failed 400 (codes "symbol required"), w)
    else changed f (replied 200 symbol) (failed 404 []) w
        (Symbols.delete_symbol f.write symbol w.db)
