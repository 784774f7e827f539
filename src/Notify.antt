-- ===== src/Notify.antt =====
-- internal/notify: the handlers that the worker calls for a job. This file has what the packages
-- telegram, whatsapp and webhook do alike: each walks over the active subscribers, and sends to
-- those of its channel that have an address. The children are the packages, and the proofs.
pub mod Telegram
pub mod Whatsapp
pub mod Webhook
pub mod Mt4copier
pub mod Outcomes
pub mod Log
use tradecast.Prelude.{
  ℕ, ℤ, ◌++◌, Bool, Option, none, some, List, [], ◌∷◌, Text, codes, text_eq, is_empty, Result, ok,
  err, find, if◌then◌else◌,
}
use tradecast.Types.{Uuid, Nanos, InboundSignal, Job}
use tradecast.Store.{ConfigValue, Config, SubscriberRow, Subscriber, Db, StoreError}
use tradecast.Store.Subscribers.{list_active_subscribers}
use tradecast.Store.Deliveries.{insert_delivery_log, mark_delivered, mark_failed}
use tradecast.Consumer.{Handler, later}

-- An HTTP request and its response.
pub record Request : Type 0 where
  pub method : Text
  pub url : Text
  pub headers : List (Text × Text)
  pub body : Text

pub record Response : Type 0 where
  pub status : ℕ
  pub body : Text

-- The packages net/http, fmt, encoding/json, net/url and encoding/base64.
--   refuses: the error of http.NewRequest
--   fixed n x: `%.nf`; clock: `Format("15:04:05")`; decimal: `%d` and `%s` of a status
--   strings: json.Marshal of a map of strings; query: url.Values.Encode
--   payload: json.Marshal of the webhook's map, of the signal's identifier, the signal and the time
pub record Wire : Type 0 where
  pub refuses : Request → Option Text
  pub fixed : ℕ → ℤ → Text
  pub clock : Nanos → Text
  pub decimal : ℕ → Text
  pub strings : List (Text × Text) → Text
  pub query : List (Text × Text) → Text
  pub payload : Uuid → InboundSignal → Nanos → Text
  pub base64 : Text → Text

-- What the loop meets at a subscriber: the identifier of the row in the log, the clock, which of the
-- two statements fail, and what http.Client.Do answers.
pub record Visit : Type 0 where
  pub log_id : Uuid
  pub now : Nanos
  pub insert_fault : Bool
  pub mark_fault : Bool
  pub call : Request → Result Text Response

-- What a run of a handler meets: the order of the query's rows, whether it fails and with which
-- message, and each visit of a subscriber.
pub record Env : Type 0 where
  pub order : List SubscriberRow → List SubscriberRow
  pub list_fault : Bool
  pub driver_message : Text
  pub visit : Subscriber → Visit

-- `s, _ := v.(string)`
abbrev pub string_or_empty : Option (Text × ConfigValue) → Text
string_or_empty (some (_, ConfigValue.text s)) = s
string_or_empty (some (_, ConfigValue.items _)) = []
string_or_empty (some (_, ConfigValue.other_value)) = []
string_or_empty none = []

-- `s, _ := sub.Config[key].(string)`
unfoldable pub config_text : Text → Config → Text
config_text key config = string_or_empty (find (λ entry. text_eq entry.0 key) config)

-- The address of a subscriber: none if it has another channel, or no address.
unfoldable pub address : Text → Text → Subscriber → Option Text
unfolding config_text
address channel key sub =
    let a = config_text key sub.config in
    if text_eq sub.channel channel then (if is_empty a then none else some a) else none

-- what follows the send: `none` if it succeeded
unfoldable pub mark : Visit → Uuid → Option Text → Db → Db
mark v id none db = (mark_delivered v.mark_fault v.now id db).1
mark v id (some e) db = (mark_failed v.mark_fault v.now id e db).1

-- the log of a send, before and after it
unfoldable pub log_send : Text → Job → Visit → Subscriber → Option Text → Db → Db
unfolding mark
log_send channel job v sub outcome db =
    let logged = insert_delivery_log v.insert_fault v.log_id job.signal_id sub.id channel db in
    mark v logged.0 outcome logged.1

-- one round of the loop; `to` is the address of the subscriber, and `send` answers with an error
unfoldable pub deliver_to :
    Text
    → Job
    → (Subscriber → Visit)
    → (Subscriber → Text → Option Text)
    → Subscriber
    → Option Text
    → Option Text × Db
    → Option Text × Db
unfolding log_send
deliver_to channel job visit send sub none (last, db) = (last, db)
deliver_to channel job visit send sub (some a) (last, db) =
    let outcome = send sub a in
    (later last outcome, log_send channel job (visit sub) sub outcome db)

-- the loop, from the last error so far
unfoldable pub deliver :
    Text
    → Text
    → Job
    → (Subscriber → Visit)
    → (Subscriber → Text → Option Text)
    → List Subscriber
    → Option Text × Db
    → Option Text × Db
deliver channel key job visit send [] state = state
deliver channel key job visit send (sub ∷ subs) state =
    deliver channel key job visit send subs
      (deliver_to channel job visit send sub (address channel key sub) state)

-- the loop over the rows of the query, or its error
unfoldable pub deliver_listed :
    Text
    → Text
    → Env
    → Job
    → (Subscriber → Text → Option Text)
    → Db
    → Result StoreError (List Subscriber)
    → Option Text × Db
deliver_listed channel key env job send db (err _) =
    (some (codes "list subscribers: " ++ env.driver_message), db)
deliver_listed channel key env job send db (ok subs) =
    deliver channel key job env.visit send subs (none, db)

-- ListActiveSubscribers and the loop
unfoldable pub notify : Text → Text → Env → (Subscriber → Text → Option Text) → Handler
notify channel key env send job db =
    deliver_listed channel key env job send db (list_active_subscribers env.order env.list_fault db)

-- `client.Do(req)` after `http.NewRequest`: what is wrong with the answer is for `checks` to say
unfoldable pub exchange :
    Wire
    → (Request → Result Text Response)
    → Text
    → (Response → Option Text)
    → Request
    → Option Text
exchange wire call prefix checks request = elim (wire.refuses request) [
  | some e ↦ some e
  | none ↦ elim (call request) [ err e ↦ some (prefix ++ e) | ok response ↦ checks response ]
]
