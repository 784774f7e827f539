-- ===== src/Admin/Subscribers.antt =====
-- The handlers of subscribers of internal/admin/admin.go.
use tradecast.Prelude.{Bool, Option, List, Text, codes, Json, unmarshal, Result, ok, err}
use tradecast.Types.{Uuid, Nanos}
use tradecast.Platform.{Platform}
use tradecast.World.{World}
use tradecast.Store.{Config, SubscriberRow, Subscriber, StoreError, Db}
use tradecast.Store.Subscribers.{create_subscriber, list_all_subscribers, set_subscriber_active}
use tradecast.Admin.{Reply, replied, failed, Faults, listed, with_id, with_body}

pub record NewSubscriber : Type 0 where
  pub key_id : Text
  pub channel : Text
  pub config : Config

-- A nil subscriber is written as null.
abbrev pub subscribed :
    World → Result StoreError (Option Subscriber) × Db → Reply (Option Subscriber) × World
subscribed w (err _, db) = (failed 500 (codes "store error"), record w { db = db })
subscribed w (ok sub, db) = (replied 201 sub, record w { db = db })

unfoldable pub create :
    Platform
    → Faults
    → Nanos
    → Uuid
    → Json NewSubscriber
    → World
    → Reply (Option Subscriber) × World
create p f now id body w = with_body (unmarshal body) w (λ req.
    with_id (p.parse_uuid req.key_id) (codes "invalid key_id") w (λ key_id.
      subscribed w
        (create_subscriber f.write f.read_back id now key_id req.channel req.config w.db)))

unfoldable pub list_subscribers :
    (List SubscriberRow → List SubscriberRow) → Faults → World → Reply (List Subscriber)
list_subscribers order f w = listed (codes "store error") (list_all_subscribers order f.read w.db)

abbrev pub activated :
    Uuid → Bool → World → Result StoreError Unit × Db → Reply (Uuid × Bool) × World
activated id active w (err _, db) = (failed 500 (codes "store error"), record w { db = db })
activated id active w (ok _, db) = (replied 200 (id, active), record w { db = db })

unfoldable pub set_active :
    Platform → Faults → Text → Json Bool → World → Reply (Uuid × Bool) × World
set_active p f id_text body w = with_id (p.parse_uuid id_text) (codes "invalid id") w (λ id.
    with_body (unmarshal body) w
      (λ active. activated id active w (set_subscriber_active f.write id active w.db)))
