-- ===== src/Symbols/Sync.antt =====
-- The running consumers against the list of symbols that is wanted.
use tradecast.Prelude.{
  ℕ, ◌≤◌, ◌≡◌, ◌≢◌, refl, ap, subst, ◌∙◌, sym, false, true, Bool, List, [], ◌∷◌, Text, text_eq,
  text_eq_iff, Result, ok, err, any, Result-cases, select, count_where, arith, Bool-cases,
  if◌then◌else◌, inl, inr, ◌||◌, text_eq_refl,
}
use tradecast.Types.{Nanos}
use tradecast.World.{World}
use tradecast.Store.{StoreError}
use tradecast.Store.Symbols.{list_active_symbols, or_default}
use tradecast.Symbols.{
  Manager, Faults, has, cache_loaded, load_cached, load, start_locked, start_all, stop_others,
  apply_loaded, sync,
}

-- How many consumers run for a symbol.
abbrev pub consumers : Text → Manager → ℕ
consumers s m = count_where (text_eq s) m.running

-- No symbol has two consumers.
abbrev pub IsSingle : Manager → Type 0
IsSingle m = (s : Text) → consumers s m ≤ 1

has-count : (s : Text) (xs : List Text) → has s xs ≡ false → count_where (text_eq s) xs ≡ 0
unfolding any count_where
has-count s [] h = refl
has-count s (x ∷ xs) h = ground (arith, h, has-count s xs)

count-has : (s : Text) (xs : List Text) → has s xs ≡ true → 1 ≤ count_where (text_eq s) xs
unfolding any count_where
count-has s [] h = ground (arith, h)
count-has s (x ∷ xs) h = ground (arith, h, count-has s xs)

has-start_locked :
    (x s : Text) (m : Manager) → has s (start_locked x m).running ≡ (has s m.running || text_eq s x)
unfolding start_locked any
has-start_locked x s m = elim (Bool-cases (text_eq s x)) [
  | inl same ↦
      let e = (text_eq_iff s x).0 same in
      subst (λ y. has s (start_locked y m).running ≡ (has s m.running || text_eq s y)) e
        (ground (arith, text_eq_refl s))
  | inr other ↦ ground (arith, other)
]

started : (x : Text) (m : Manager) → consumers x m ≤ 1 → consumers x (start_locked x m) ≤ 1
unfolding start_locked count_where
started x m h = elim (Bool-cases (has x m.running)) [
  | inl there ↦ rw there h
  | inr gone ↦ ground (arith, gone, has-count x m.running gone, text_eq_refl x)
]

start_locked-IsSingle : (x : Text) (m : Manager) → IsSingle m → IsSingle (start_locked x m)
unfolding start_locked count_where
start_locked-IsSingle x m h s = elim (Bool-cases (text_eq s x)) [
  | inl same ↦
      subst (λ y. consumers y (start_locked x m) ≤ 1) (sym ((text_eq_iff s x).0 same))
        (started x m (h x))
  | inr other ↦ ground (arith, other, h s)
]

has-start_all :
    (xs : List Text) (s : Text) (m : Manager)
    → has s (start_all xs m).running ≡ (has s m.running || has s xs)
unfolding start_all any
has-start_all [] s m = ground arith
has-start_all (x ∷ xs) s m =
    has-start_all xs s (start_locked x m) ∙ rw (has-start_locked x s m) (ground arith)

start_all-IsSingle : (xs : List Text) (m : Manager) → IsSingle m → IsSingle (start_all xs m)
unfolding start_all
start_all-IsSingle [] m h = h
start_all-IsSingle (x ∷ xs) m h =
    start_all-IsSingle xs (start_locked x m) (start_locked-IsSingle x m h)

count-select :
    (s : Text) (p : Text → Bool) (xs : List Text)
    → count_where (text_eq s) (select p xs) ≡ (if p s then count_where (text_eq s) xs else 0)
unfolding count_where select
count-select s p [] = ground arith
count-select s p (x ∷ xs) = elim (Bool-cases (text_eq s x)) [
  | inl same ↦
      let e = ap p ((text_eq_iff s x).0 same) in ground (arith, same, e, count-select s p xs)
  | inr other ↦ ground (arith, other, count-select s p xs)
]

-- After a sync whose load succeeds, exactly the symbols that load answered have a consumer, and
-- each has one, if no symbol had two before.
pub sync-consumers :
    (order : List Text → List Text) (f : Faults) (now : Nanos) (m : Manager) (w : World)
    (symbols : List Text)
    → IsSingle m
    → (load order f now w).0 ≡ ok symbols
    → (s : Text) → consumers s (sync order f now (m, w)).0 ≡ (if has s symbols then 1 else 0)
unfolding sync apply_loaded stop_others
sync-consumers order f now m w symbols h e s =
    rw (e, count-select s (λ x. has x symbols) (start_all symbols m).running)
      (elim (Bool-cases (has s symbols)) [
        | inl wanted ↦
            let running = has-start_all symbols s m in
            ground (
              arith,
              wanted,
              running,
              start_all-IsSingle symbols m h s,
              count-has s (start_all symbols m).running,
            )
        | inr unwanted ↦ rw unwanted refl
      ])

-- If load fails, a sync starts and stops nothing.
sync-err :
    (order : List Text → List Text) (f : Faults) (now : Nanos) (m : Manager) (w : World)
    (x : StoreError)
    → (load order f now w).0 ≡ err x
    → (sync order f now (m, w)).0 ≡ m
unfolding sync apply_loaded
sync-err order f now m w x e = rw e refl

sync-IsSingle :
    (order : List Text → List Text) (f : Faults) (now : Nanos) (m : Manager) (w : World)
    → IsSingle m
    → IsSingle (sync order f now (m, w)).0
sync-IsSingle order f now m w h s = elim (Result-cases (load order f now w).0) [
  | inl (symbols, e) ↦
      rw (sync-consumers order f now m w symbols h e s) (elim (Bool-cases (has s symbols)) [
        | inl yes_ ↦ rw yes_ (ground arith)
        | inr no_ ↦ rw no_ (ground arith)
      ])
  | inr (x, e) ↦ rw (sync-err order f now m w x e) (h s)
]

-- The rounds of the ticker, with the time, the faults and the world that each finds.
abbrev pub syncs : (List Text → List Text) → List (Faults × Nanos × World) → Manager → Manager
syncs order [] m = m
syncs order ((f, now, w) ∷ rounds) m = syncs order rounds (sync order f now (m, w)).0

-- From a manager with at most one consumer for a symbol, no run of syncs, with failures and with
-- other parts changing the world in between, gives a symbol two consumers.
pub syncs-IsSingle :
    (order : List Text → List Text) (rounds : List (Faults × Nanos × World)) (m : Manager)
    → IsSingle m
    → IsSingle (syncs order rounds m)
syncs-IsSingle order [] m h = h
syncs-IsSingle order ((f, now, w) ∷ rounds) m h =
    syncs-IsSingle order rounds _ (sync-IsSingle order f now m w h)

or_default_full : (xs : List Text) → or_default xs ≢ []
or_default_full [] = ground arith
or_default_full (x ∷ xs) = ground arith

list_active_symbols_full :
    (order : List Text → List Text) (fault : Bool) (db : tradecast.Store.Db) (symbols : List Text)
    → list_active_symbols order fault db ≡ ok symbols
    → symbols ≢ []
unfolding list_active_symbols
list_active_symbols_full order true db symbols h = ground (arith, h)
list_active_symbols_full order false db symbols h = grind (arith, h, or_default_full)

cache_loaded_lem :
    (f : Faults) (now : Nanos) (w : World) (r : Result StoreError (List Text))
    → (cache_loaded f now w r).0 ≡ r
unfolding cache_loaded
cache_loaded_lem f now w (err e) = refl
cache_loaded_lem f now w (ok symbols) = refl

load_cached_full :
    (order : List Text → List Text) (f : Faults) (now : Nanos) (w : World)
    (symbols cached : List Text)
    → (load_cached order f now w cached).0 ≡ ok symbols
    → symbols ≢ []
unfolding load_cached
load_cached_full order f now w symbols [] h =
    list_active_symbols_full order f.list w.db symbols (sym (cache_loaded_lem f now w _) ∙ h)
load_cached_full order f now w symbols (s ∷ ss) h = ground (arith, h)

-- A load that succeeds never answers with no symbol at all, whatever the cache and the table hold
-- and however the database sorts: in the end it falls back on the default symbols.
pub load_full :
    (order : List Text → List Text) (f : Faults) (now : Nanos) (w : World) (symbols : List Text)
    → (load order f now w).0 ≡ ok symbols
    → symbols ≢ []
unfolding load
load_full order f now w symbols h = load_cached_full order f now w symbols _ h
