-- ===== src/Store/Subscribers.antt =====
-- The statements on subscribers of internal/store/store.go. `order` is the order in which the
-- database answers. A violated constraint is an error of the driver.
use mathlib.Core.Option
use tradecast.Prelude.{
  ◌==◌, ◌||◌, not, Bool, true, Option, none, some, List, [], ◌∷◌, Text, codes, text_eq, doc,
  unmarshal, Result, ok, err, any, find, select, map, update_where, if◌then◌else◌,
}
use tradecast.Types.{Uuid, Nanos}
use tradecast.Store.{Config, SubscriberRow, Subscriber, Db, StoreError, driver}

-- A column that does not decode leaves the map nil.
abbrev pub config_of : Option Config → Config
config_of none = []
config_of (some config) = config

unfoldable pub scan_subscriber : SubscriberRow → Subscriber
scan_subscriber r = record {
  id = r.id;
  key_id = r.key_id;
  channel = r.channel;
  config = config_of (unmarshal r.config);
  active = r.active;
  created_at = r.created_at;
}

-- CHECK (channel IN (…))
abbrev pub is_channel : Text → Bool
is_channel c =
    text_eq c (codes "telegram")
    || text_eq c (codes "whatsapp")
    || text_eq c (codes "webhook")
    || text_eq c (codes "mt4")

-- the INSERT of CreateSubscriber, under the constraints of the table
unfoldable pub insert_subscriber :
    Bool → Uuid → Nanos → Uuid → Text → Config → Db → Result StoreError Unit × Db
insert_subscriber fault id now key_id channel config db =
    let row : SubscriberRow = record {
      id = id;
      key_id = key_id;
      channel = channel;
      config = doc config;
      active = true;
      created_at = now;
    } in
    if fault
      || not (is_channel channel)
      || not (any (λ k. k.id == key_id) db.api_keys)
      || any (λ r. r.id == id) db.subscribers
    then (err driver, db)
    else (ok tt, record db { subscribers = row ∷ db.subscribers })

-- `ok none`: sql.ErrNoRows
unfoldable pub get_subscriber_by_id : Bool → Uuid → Db → Result StoreError (Option Subscriber)
get_subscriber_by_id fault id db =
    if fault
    then err driver
    else ok (Option.map scan_subscriber (find (λ r. r.id == id) db.subscribers))

-- `return s.GetSubscriberByID(ctx, id)` after the INSERT
abbrev read_back :
    Bool → Uuid → Result StoreError Unit × Db → Result StoreError (Option Subscriber) × Db
read_back fault id (err e, db) = (err e, db)
read_back fault id (ok _, db) = (get_subscriber_by_id fault id db, db)

unfoldable pub create_subscriber :
    Bool
    → Bool
    → Uuid
    → Nanos
    → Uuid
    → Text
    → Config
    → Db
    → Result StoreError (Option Subscriber) × Db
unfolding insert_subscriber get_subscriber_by_id
create_subscriber insert_fault get_fault id now key_id channel config db =
    read_back get_fault id (insert_subscriber insert_fault id now key_id channel config db)

unfoldable pub list_active_subscribers :
    (List SubscriberRow → List SubscriberRow) → Bool → Db → Result StoreError (List Subscriber)
list_active_subscribers order fault db =
    if fault
    then err driver
    else ok (map scan_subscriber (order (select (λ r. r.active) db.subscribers)))

unfoldable pub list_all_subscribers :
    (List SubscriberRow → List SubscriberRow) → Bool → Db → Result StoreError (List Subscriber)
list_all_subscribers order fault db =
    if fault then err driver else ok (map scan_subscriber (order db.subscribers))

unfoldable pub set_subscriber_active : Bool → Uuid → Bool → Db → Result StoreError Unit × Db
set_subscriber_active fault id active db = if fault then (err driver, db) else (
  ok tt,
  record db {
    subscribers = update_where (λ r. r.id == id) (λ r. record r { active = active }) db.subscribers;
  },
)
