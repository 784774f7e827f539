-- ===== src/Store/Machines.antt =====
-- The statements on key_machines of internal/store/store.go.
use tradecast.Prelude.{
  List, select, ℕ, ℤ, pos, ltb_ℤ, ◌==◌, ◌&&◌, not, Bool, true, false, Option, none, some, ◌∷◌, Text,
  text_eq, Result, ok, err, find, any, update_where, delete_where, count_where, if◌then◌else◌,
}
use tradecast.Types.{Uuid, Nanos}
use tradecast.Store.{KeyMachine, Db, StoreError, driver, unique_violation, machine_limit, not_found}

-- WHERE key_id=$1 AND account_number=$2
abbrev pub is_machine : Uuid → Text → KeyMachine → Bool
is_machine key account m = m.key_id == key && text_eq m.account_number account

-- WHERE key_id=$1
abbrev pub of_key : Uuid → KeyMachine → Bool
of_key key m = m.key_id == key

-- SELECT COUNT(*) WHERE key_id=$1
abbrev pub machines_of : Uuid → Db → ℕ
machines_of key db = count_where (of_key key) db.key_machines

unfoldable pub count_machines : Bool → Uuid → Db → Result StoreError ℕ
count_machines fault key db = if fault then err driver else ok (machines_of key db)

unfoldable pub is_machine_registered : Bool → Uuid → Text → Db → Result StoreError Bool
is_machine_registered fault key account db =
    if fault then err driver else ok (any (is_machine key account) db.key_machines)

-- a key that is not there has no limit
abbrev pub limit_of : Uuid → Db → Option ℤ
limit_of key db = elim (find (λ r. r.id == key) db.api_keys) [
  | none ↦ none
  | some r ↦ r.max_machines
]

unfoldable pub get_max_machines : Bool → Uuid → Db → Result StoreError (Option ℤ)
unfolding find
get_max_machines fault key db = if fault then err driver else ok (limit_of key db)

unfoldable pub touch_machine_last_seen : Bool → Nanos → Uuid → Text → Db → Db
touch_machine_last_seen fault now key account db = if fault then db else record db {
  key_machines =
      update_where (is_machine key account) (λ m. record m { last_seen_at = now }) db.key_machines;
}

-- UPDATE key_machines SET last_seen_at=NOW() WHERE id=$1
unfoldable pub touch_machine : Bool → Nanos → Uuid → Db → Db
touch_machine fault now id db = if fault then db else record db {
  key_machines =
      update_where (λ m. m.id == id) (λ m. record m { last_seen_at = now }) db.key_machines;
}

-- Which statements of RegisterMachine fail.
pub record RegisterFaults : Type 0 where
  pub lookup : Bool
  pub touch : Bool
  pub count : Bool
  pub insert : Bool

-- `count >= *maxMachines`; a limit of nil never binds
abbrev pub is_full : ℕ → Option ℤ → Bool
is_full n none = false
is_full n (some m) = not (ltb_ℤ (pos n) m)

-- The count that the limit is compared with: 0 if the query fails, for its error is dropped.
abbrev pub counted : Bool → Uuid → Db → ℕ
counted fault key db = if fault then 0 else machines_of key db

-- the last statement, under UNIQUE (key_id, account_number)
unfoldable pub insert_machine : Bool → Uuid → Nanos → Uuid → Text → Db → Result StoreError Unit × Db
insert_machine fault id now key account db =
    let row : KeyMachine = record {
      id = id;
      key_id = key;
      account_number = account;
      registered_at = now;
      last_seen_at = now;
    } in
    if fault
    then (err driver, db)
    else if any (is_machine key account) db.key_machines
    then (err unique_violation, db)
    else (ok tt, record db { key_machines = row ∷ db.key_machines })

-- the end of RegisterMachine: a unique violation is taken for a machine that is registered already
abbrev pub registered : Result StoreError Unit × Db → Result StoreError Bool × Db
registered (ok _, db) = (ok true, db)
registered (err unique_violation, db) = (ok false, db)
registered (err driver, db) = (err driver, db)
registered (err machine_limit, db) = (err machine_limit, db)
registered (err not_found, db) = (err not_found, db)

-- what follows the lookup of an existing registration
unfoldable pub register_found :
    RegisterFaults
    → Uuid
    → Nanos
    → Uuid
    → Text
    → Option ℤ
    → Db
    → Option KeyMachine
    → Result StoreError Bool × Db
unfolding insert_machine touch_machine
register_found f id now key account max db (some m) = (ok false, touch_machine f.touch now m.id db)
register_found f id now key account max db none =
    if is_full (counted f.count key db) max
    then (err machine_limit, db)
    else registered (insert_machine f.insert id now key account db)

unfoldable pub register_machine :
    RegisterFaults → Uuid → Nanos → Uuid → Text → Option ℤ → Db → Result StoreError Bool × Db
unfolding register_found
register_machine f id now key account max db =
    if f.lookup
    then (err driver, db)
    else register_found f id now key account max db (find (is_machine key account) db.key_machines)

-- ListMachines, of one key or of all; `order` is ORDER BY registered_at DESC.
unfoldable pub list_machines :
    (List KeyMachine → List KeyMachine)
    → Bool
    → Option Uuid
    → Db
    → Result StoreError (List KeyMachine)
list_machines order fault none db = if fault then err driver else ok (order db.key_machines)
list_machines order fault (some key) db =
    if fault then err driver else ok (order (select (of_key key) db.key_machines))

unfoldable pub remove_machine : Bool → Uuid → Text → Db → Result StoreError Unit × Db
remove_machine fault key account db =
    let kept = delete_where (is_machine key account) db.key_machines in
    if fault
    then (err driver, db)
    else if any (is_machine key account) db.key_machines
    then (ok tt, record db { key_machines = kept })
    else (err not_found, db)
