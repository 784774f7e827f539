-- ===== src/Store/Deliveries.antt =====
-- The delivery log and the dead letters of internal/store/store.go.
use tradecast.Prelude.{
  ◌+◌, ◌==◌, Bool, Option, none, some, ◌∷◌, Text, Json, Result, ok, err, update_where,
  if◌then◌else◌,
}
use tradecast.Types.{Uuid, Nanos, Job}
use tradecast.Store.{DeliveryRow, DeadRow, pending, delivered, failed, dead, Db, StoreError, driver}

-- The identifier is returned with an error too.
unfoldable pub insert_delivery_log : Bool → Uuid → Uuid → Uuid → Text → Db → Uuid × Db
insert_delivery_log fault id signal_id subscriber_id channel db =
    let row : DeliveryRow = record {
      id = id;
      signal_id = signal_id;
      subscriber_id = subscriber_id;
      channel = channel;
      status = pending;
      attempts = 0;
      last_attempted_at = none;
      error = none;
    } in
    (id, if fault then db else record db { delivery_log = row ∷ db.delivery_log })

-- UPDATE delivery_log SET … WHERE id=$n
abbrev set_delivery : Uuid → (DeliveryRow → DeliveryRow) → Db → Db
set_delivery id f db = record db { delivery_log = update_where (λ r. r.id == id) f db.delivery_log }

unfoldable pub mark_delivered : Bool → Nanos → Uuid → Db → Result StoreError Unit × Db
mark_delivered fault now id db =
    let change = λ (r : DeliveryRow). record r {
      status = delivered;
      last_attempted_at = some now;
      attempts = r.attempts + 1;
    } in
    if fault then (err driver, db) else (ok tt, set_delivery id change db)

unfoldable pub mark_failed : Bool → Nanos → Uuid → Text → Db → Result StoreError Unit × Db
mark_failed fault now id msg db =
    let change = λ (r : DeliveryRow). record r {
      status = failed;
      last_attempted_at = some now;
      attempts = r.attempts + 1;
      error = some msg;
    } in
    if fault then (err driver, db) else (ok tt, set_delivery id change db)

unfoldable pub mark_dead : Bool → Nanos → Uuid → Text → Db → Result StoreError Unit × Db
mark_dead fault now id msg db =
    let change = λ (r : DeliveryRow). record r {
      status = dead;
      last_attempted_at = some now;
      error = some msg;
    } in
    if fault then (err driver, db) else (ok tt, set_delivery id change db)

unfoldable pub insert_dead_letter :
    Bool → Uuid → Json Job → Option Uuid → Text → Db → Result StoreError Unit × Db
insert_dead_letter fault id payload signal_id reason db =
    let row : DeadRow = record {
      id = id;
      job_payload = payload;
      signal_id = signal_id;
      failure_reason = reason;
    } in
    if fault then (err driver, db) else (ok tt, record db { dead_letters = row ∷ db.dead_letters })
