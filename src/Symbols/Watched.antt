-- ===== src/Symbols/Watched.antt =====
-- From the admin's handler of a new symbol (internal/admin/admin.go) to the worker that consumes it
-- (internal/symbols/manager.go).
use tradecast.Prelude.{
  ◌≡◌, ap, subst, ◌∙◌, true, false, none, List, [], ◌∷◌, Text, text_eq, text_eq_iff, text_eq_refl,
  is_empty, to_upper, trim_space, Json, ok, any, select, update_where, map, arith, Bool-cases, inl,
  inr, if◌then◌else◌,
}
use tradecast.Prelude.Trim.{normalized}
use tradecast.Types.{Uuid, Nanos}
use tradecast.World.{World}
use tradecast.Store.{WatchedSymbol, Db}
use tradecast.Store.Symbols
use tradecast.Store.Symbols.{list_active_symbols, or_default, has_symbol, upsert_symbol}
use tradecast.Cache.SymbolList.{get_symbol_list, invalidate_symbol_list}
use tradecast.Admin
use tradecast.Admin.{Reply, replied}
use tradecast.Admin.Symbols.{add_symbol}
use tradecast.Symbols.{Manager, Faults, has, cached_symbols, cache_loaded, load_cached, load, sync}
use tradecast.Symbols.Sync.{IsSingle, consumers, sync-consumers}

-- The names that ListActiveSymbols selects, before they are sorted.
abbrev active_names : List WatchedSymbol → List Text
active_names rows = map (λ r. r.symbol) (select (λ r. r.active) rows)

text_eq_comm : (s t : Text) → text_eq s t ≡ true → text_eq t s ≡ true
text_eq_comm s t h = subst (λ x. text_eq x s ≡ true) ((text_eq_iff s t).0 h) (text_eq_refl s)

has-activated :
    (s : Text) (rows : List WatchedSymbol)
    → any (has_symbol s) rows ≡ true
    → has s (active_names (update_where (has_symbol s) (λ r. record r { active = true }) rows))
      ≡ true
unfolding any select update_where
has-activated s [] h = ground (arith, h)
has-activated s (r ∷ rows) h = elim (Bool-cases (has_symbol s r)) [
  | inl e ↦ ground (arith, e, text_eq_comm r.symbol s e)
  | inr e ↦ ground (arith, e, h, has-activated s rows)
]

has-upsert_symbol :
    (id : Uuid) (now : Nanos) (s : Text) (db : Db)
    → has s (active_names (upsert_symbol id now s db).watched_symbols) ≡ true
unfolding upsert_symbol any select
has-upsert_symbol id now s db = elim (Bool-cases (any (has_symbol s) db.watched_symbols)) [
  | inl e ↦ rw e (has-activated s db.watched_symbols e)
  | inr e ↦ rw e (ground (arith, text_eq_refl s))
]

has-or_default : (s : Text) (xs : List Text) → has s xs ≡ true → has s (or_default xs) ≡ true
unfolding any
has-or_default s [] h = ground (arith, h)
has-or_default s (x ∷ xs) h = h

symbol_of : Text → Reply Text → Text
symbol_of d (replied n s) = s
symbol_of d (Reply.failed n m) = d
symbol_of d Reply.panicked = d

-- A 201 says what the handler did: the row is there, and the cached list is not.
add_symbol_created :
    (f : Admin.Faults) (now : Nanos) (id : Uuid) (body : Json Text) (w : World) (s : Text)
    → f.cache ≡ false
    → (add_symbol f now id body w).0 ≡ replied 201 s
    → ((add_symbol f now id body w).1.critical.symbol_list ≡ none)
      × ((add_symbol f now id body w).1.db ≡ upsert_symbol id now s w.db)
unfolding add_symbol Symbols.add_symbol invalidate_symbol_list symbol_of
add_symbol_created f now id (Json.quoted b) w s kept h = absurd (ground (arith, h))
add_symbol_created f now id (Json.other b) w s kept h = absurd (ground (arith, h))
add_symbol_created f now id (Json.doc b) w s kept h =
    let t = to_upper (trim_space b) in
    elim (Bool-cases (is_empty t)) [
      | inl e ↦ absurd (ground (arith, e, h))
      | inr e ↦ elim (Bool-cases f.write) [
        | inl q ↦ absurd (ground (arith, e, q, h))
        | inr q ↦
            let same : t ≡ s = ground (arith, e, q, ap (symbol_of t) h) in
            (
              ground (arith, e, q, kept),
              rw (e, add_symbol)
                  (rw (q, Symbols.add_symbol)
                    (ap (λ x. upsert_symbol id now x w.db) (normalized b ∙ same))),
            )
      ]
    ]

-- Without a cached list, load answers what the table says.
load_uncached :
    (order : List Text → List Text) (f : Faults) (now : Nanos) (w : World)
    → w.critical.symbol_list ≡ none
    → f.list ≡ false
    → (load order f now w).0 ≡ ok (or_default (order (active_names w.db.watched_symbols)))
unfolding load load_cached cache_loaded get_symbol_list list_active_symbols
load_uncached order f now w uncached listed =
    let none_cached : cached_symbols (get_symbol_list f.cache_get now w.critical) ≡ [] =
      ground (arith, uncached) in
    rw none_cached (ground (arith, listed))

-- When the handler of a new symbol has answered 201, and its deletion of the cached list did not
-- fail, the next sync of the manager leaves exactly one consumer for that symbol, if it can read the
-- table and nothing changes the table or the cached list in between. It holds for any database with
-- any symbols, whether the symbol is new, inactive or active there, whether Redis fails the sync, and
-- any manager with at most one consumer for each symbol. `order`, the collation of the database,
-- loses and adds no name.
pub add_symbol-sync :
    (order : List Text → List Text) (f : Admin.Faults) (g : Faults) (now later : Nanos) (id : Uuid)
    (body : Json Text) (w : World) (s : Text) (m : Manager)
    → ((x : Text) (xs : List Text) → has x (order xs) ≡ has x xs)
    → f.cache ≡ false
    → g.list ≡ false
    → IsSingle m
    → (add_symbol f now id body w).0 ≡ replied 201 s
    → consumers s (sync order g later (m, (add_symbol f now id body w).1)).0 ≡ 1
add_symbol-sync order f g now later id body w s m sorts kept listed single created =
    let w' = (add_symbol f now id body w).1 in
    let (uncached, stored) = add_symbol_created f now id body w s kept created in
    let names = active_names w'.db.watched_symbols in
    let watched : has s names ≡ true =
      ap (λ db. has s (active_names db.watched_symbols)) stored ∙ has-upsert_symbol id now s w.db in
    let wanted : has s (or_default (order names)) ≡ true =
      has-or_default s (order names) (sorts s names ∙ watched) in
    sync-consumers order g later m w' (or_default (order names)) single
      (load_uncached order g later w' uncached listed) s
    ∙ ap (λ b. if b then 1 else 0) wanted
