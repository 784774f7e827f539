-- ===== src/Admin/Machines.antt =====
-- The handlers of machines of internal/admin/admin.go.
use tradecast.Prelude.{
  [], ℕ, ℤ, pos, Bool, Option, none, some, List, Text, codes, is_empty, Json, unmarshal, Result, ok,
  err, Fault, if◌then◌else◌,
}
use tradecast.Types.{Uuid}
use tradecast.Platform.{Platform}
use tradecast.World.{World}
use tradecast.Cache.Machines.{Page, invalidate_machine_cache}
use tradecast.Store.{KeyMachine, ApiKey, StoreError, Db}
use tradecast.Store.Keys.{get_api_key_by_id, set_api_key_max_machines}
use tradecast.Store.Machines.{list_machines, count_machines, remove_machine}
use tradecast.Admin.{Reply, replied, failed, Faults, is_below, listed, with_id, with_body}
use tradecast.Admin.Keys.{key_or_none}

unfoldable pub list_all_machines :
    (List KeyMachine → List KeyMachine) → Faults → World → Reply (List KeyMachine)
list_all_machines order f w = listed (codes "store error") (list_machines order f.read none w.db)

-- The machines of a key, their number and the key's limit.
pub record KeyMachines : Type 0 where
  pub machines : List KeyMachine
  pub count : ℕ
  pub max_machines : Option ℤ

abbrev pub count_or_zero : Result StoreError ℕ → ℕ
count_or_zero (err _) = 0
count_or_zero (ok n) = n

abbrev pub max_of : Option ApiKey → Option ℤ
max_of none = none
max_of (some key) = key.max_machines

-- what follows ListMachines; the errors of the count and of the key are dropped
abbrev pub with_count :
    Bool → Bool → Uuid → World → Result StoreError (List KeyMachine) → Reply KeyMachines
with_count count_fault key_fault id w (err _) = failed 500 (codes "store error")
with_count count_fault key_fault id w (ok machines) = replied 200 (record {
  machines = machines;
  count = count_or_zero (count_machines count_fault id w.db);
  max_machines = max_of (key_or_none (get_api_key_by_id key_fault id w.db));
})

unfoldable pub list_key_machines :
    Platform
    → (List KeyMachine → List KeyMachine)
    → Bool
    → Bool
    → Bool
    → Text
    → World
    → Reply KeyMachines × World
list_key_machines p order list_fault count_fault key_fault id_text w =
    with_id (p.parse_uuid id_text) (codes "invalid key id") w (λ id.
      (with_count count_fault key_fault id w (list_machines order list_fault (some id) w.db), w))

-- ListMachines is ListKeyMachines under another name.
unfoldable pub list_machines_alias :
    Platform
    → (List KeyMachine → List KeyMachine)
    → Bool
    → Bool
    → Bool
    → Text
    → World
    → Reply KeyMachines × World
unfolding list_key_machines
list_machines_alias p order list_fault count_fault key_fault id_text w =
    list_key_machines p order list_fault count_fault key_fault id_text w

-- after the DELETE; the body of a 404 is the message of the error, which is left out
abbrev pub removed : Text → World → Result StoreError Unit × Db → Reply Text × World
removed account w (err _, db) = (failed 404 [], record w { db = db })
removed account w (ok _, db) = (replied 200 account, record w { db = db })

unfoldable pub remove_machine_handler : Platform → Faults → Text → Text → World → Reply Text × World
remove_machine_handler p f id_text account w =
    with_id (p.parse_uuid id_text) (codes "invalid key id") w (λ id.
      if is_empty account
      then (failed 400 (codes "account number required"), w)
      else removed account w (remove_machine f.write id account w.db))

-- after the UPDATE: the machines of the key leave the cache
abbrev pub max_changed :
    List (Result Fault Page)
    → Text
    → Uuid
    → Option ℤ
    → World
    → Result StoreError Unit × Db
    → Reply (Uuid × Option ℤ) × World
max_changed pages key_text id max w (err _, db) =
    (failed 500 (codes "store error"), record w { db = db })
max_changed pages key_text id max w (ok _, db) =
    let lru = (invalidate_machine_cache pages key_text w.lru).1 in
    (replied 200 (id, max), record w { db = db; lru = lru })

-- `pages` are the answers of Redis to the scan of the cache.
unfoldable pub set_max_machines :
    Platform
    → Faults
    → List (Result Fault Page)
    → Text
    → Json (Option ℤ)
    → World
    → Reply (Uuid × Option ℤ) × World
set_max_machines p f pages id_text body w =
    with_id (p.parse_uuid id_text) (codes "invalid key id") w (λ id.
      with_body (unmarshal body) w (λ max.
        if is_below (pos 0) max
        then (failed 400 (codes "max_machines must be >= 0 or null (unlimited)"), w)
        else max_changed pages (p.uuid_text id) id max w
            (set_api_key_max_machines f.write id max w.db)))
