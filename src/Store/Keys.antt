-- ===== src/Store/Keys.antt =====
-- The statements on api_keys of internal/store/store.go.
pub mod Scopes
use tradecast.Prelude.{
  ℤ, ◌==◌, ◌||◌, Bool, Option, none, some, List, ◌∷◌, Text, text_eq, Result, ok, err, find,
  update_where, any, map, if◌then◌else◌,
}
use mathlib.Core.Option
use tradecast.Types.{Uuid, Nanos}
use tradecast.Store.{ApiKeyStatus, active, KeyRow, ApiKey, Db, StoreError, driver, unique_violation}
use tradecast.Store.Scopes.{scopes_to_array, parse_postgres_array}

unfoldable pub scan_api_key : KeyRow → ApiKey
scan_api_key r = record {
  id = r.id;
  key_hash = r.key_hash;
  owner = r.owner;
  scopes = parse_postgres_array r.scopes;
  status = r.status;
  max_machines = r.max_machines;
  successor_key_id = r.successor_key_id;
  rotate_at = r.rotate_at;
  note = r.note;
  created_at = r.created_at;
  last_used_at = r.last_used_at;
}

-- `ok none`: sql.ErrNoRows
unfoldable pub get_api_key_by_hash : Bool → Text → Db → Result StoreError (Option ApiKey)
get_api_key_by_hash fault hash db =
    if fault
    then err driver
    else ok (Option.map scan_api_key (find (λ r. text_eq r.key_hash hash) db.api_keys))

unfoldable pub get_api_key_by_id : Bool → Uuid → Db → Result StoreError (Option ApiKey)
get_api_key_by_id fault id db =
    if fault then err driver else ok (Option.map scan_api_key (find (λ r. r.id == id) db.api_keys))

-- the INSERT of a row whose values the columns take
abbrev insert_row : KeyRow → Db → Result StoreError Unit × Db
insert_row row db =
    if any (λ r. r.id == row.id || text_eq r.key_hash row.key_hash) db.api_keys
    then (err unique_violation, db)
    else (ok tt, record db { api_keys = row ∷ db.api_keys })

-- `column` is what Postgres makes of an array literal for a TEXT[] column: the text that a query
-- gives back, or `none` if it refuses the literal.
unfoldable pub insert_api_key :
    (Text → Option Text)
    → Bool
    → Uuid
    → Nanos
    → Text
    → Text
    → Text
    → List Text
    → Option ℤ
    → Db
    → Result StoreError Unit × Db
insert_api_key column fault id now hash owner note scopes max_machines db =
    let row : Text → KeyRow = λ kept. record {
      id = id;
      key_hash = hash;
      owner = owner;
      scopes = kept;
      status = active;
      max_machines = max_machines;
      successor_key_id = none;
      rotate_at = none;
      note = note;
      created_at = now;
      last_used_at = none;
    } in
    if fault then (err driver, db) else (elim (column (scopes_to_array scopes)) [
      | none ↦ (err driver, db)
      | some kept ↦ insert_row (row kept) db
    ])

-- `return s.GetAPIKeyByID(ctx, id)` after an INSERT
abbrev read_back :
    Bool → Uuid → Result StoreError Unit × Db → Result StoreError (Option ApiKey) × Db
read_back fault id (err e, db) = (err e, db)
read_back fault id (ok _, db) = (get_api_key_by_id fault id db, db)

unfoldable pub create_api_key :
    (Text → Option Text)
    → Bool
    → Bool
    → Uuid
    → Nanos
    → Text
    → Text
    → Text
    → List Text
    → Option ℤ
    → Db
    → Result StoreError (Option ApiKey) × Db
unfolding insert_api_key get_api_key_by_id
create_api_key column insert_fault get_fault id now hash owner note scopes max_machines db =
    read_back get_fault id
      (insert_api_key column insert_fault id now hash owner note scopes max_machines db)

-- `order` is ORDER BY created_at DESC.
unfoldable pub list_api_keys :
    (List KeyRow → List KeyRow) → Bool → Db → Result StoreError (List ApiKey)
list_api_keys order fault db =
    if fault then err driver else ok (map scan_api_key (order db.api_keys))

unfoldable pub set_api_key_status : Bool → Uuid → ApiKeyStatus → Db → Result StoreError Unit × Db
set_api_key_status fault id status db = if fault then (err driver, db) else (
  ok tt,
  record db {
    api_keys = update_where (λ r. r.id == id) (λ r. record r { status = status }) db.api_keys;
  },
)

unfoldable pub set_api_key_max_machines : Bool → Uuid → Option ℤ → Db → Result StoreError Unit × Db
set_api_key_max_machines fault id max_machines db = if fault then (err driver, db) else (
  ok tt,
  record db {
    api_keys =
        update_where (λ r. r.id == id) (λ r. record r { max_machines = max_machines }) db.api_keys;
  },
)

unfoldable pub touch_api_key_last_used : Bool → Nanos → Uuid → Db → Db
touch_api_key_last_used fault now id db = if fault then db else record db {
  api_keys = update_where (λ r. r.id == id) (λ r. record r { last_used_at = some now }) db.api_keys;
}

-- Which statements of RotateAPIKey fail.
pub record RotateFaults : Type 0 where
  pub begin : Bool
  pub insert : Bool
  pub link : Bool
  pub commit : Bool
  pub get : Bool

-- UPDATE api_keys SET successor_key_id, rotate_at
unfoldable pub link_successor : Uuid → Nanos → Uuid → Db → Db
link_successor new_id rotate_at old_id db = record db {
  api_keys =
      update_where (λ r. r.id == old_id)
        (λ r. record r { successor_key_id = some new_id; rotate_at = some rotate_at }) db.api_keys;
}

-- what follows the INSERT of the successor, over the tables `db` from before the transaction
unfoldable pub finish_rotation :
    RotateFaults
    → Uuid
    → Uuid
    → Nanos
    → Db
    → Result StoreError Unit × Db
    → Result StoreError (Option ApiKey) × Db
unfolding link_successor get_api_key_by_id
finish_rotation f new_id old_id rotate_at db (err e, _) = (err e, db)
finish_rotation f new_id old_id rotate_at db (ok _, db') =
    let linked = link_successor new_id rotate_at old_id db' in
    if f.link || f.commit then (err driver, db) else (get_api_key_by_id f.get new_id linked, linked)

-- One transaction: an error in it leaves the tables as they were.
unfoldable pub rotate_api_key :
    (Text → Option Text)
    → RotateFaults
    → Uuid
    → Nanos
    → Uuid
    → Text
    → Text
    → Text
    → List Text
    → Option ℤ
    → Nanos
    → Db
    → Result StoreError (Option ApiKey) × Db
unfolding insert_api_key finish_rotation
rotate_api_key column f new_id now old_id hash owner note scopes max_machines rotate_at db =
    if f.begin
    then (err driver, db)
    else finish_rotation f new_id old_id rotate_at db
        (insert_api_key column f.insert new_id now hash owner note scopes max_machines db)
