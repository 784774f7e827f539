-- ===== src/Store.antt =====
-- internal/store/store.go: the tables and the Go structs. The children are the operations. A table
-- is the list of its rows, the newest first. A statement takes a Boolean first: whether the driver
-- fails it. A statement that fails changes nothing.
pub mod Scopes
pub mod Keys
pub mod Machines
pub mod Symbols
pub mod Signals
pub mod Deliveries
pub mod Subscribers
pub mod Metrics
mod Tests
pub mod Migrate
use tradecast.Prelude.{ℕ, Bool, Option, List, [], ℤ, Text, Json, Fault}
use tradecast.Types.{Uuid, Nanos, Job}

pub data ApiKeyStatus : Type 0 where
  active revoked suspended : ApiKeyStatus

-- a row of api_keys; `scopes` is the array literal of the column
pub record KeyRow : Type 0 where
  pub id : Uuid
  pub key_hash : Text
  pub owner : Text
  pub scopes : Text
  pub status : ApiKeyStatus
  pub max_machines : Option ℤ
  pub successor_key_id : Option Uuid
  pub rotate_at : Option Nanos
  pub note : Text
  pub created_at : Nanos
  pub last_used_at : Option Nanos

-- the struct that the queries return
pub record ApiKey : Type 0 where
  pub id : Uuid
  pub key_hash : Text
  pub owner : Text
  pub scopes : List Text
  pub status : ApiKeyStatus
  pub max_machines : Option ℤ
  pub successor_key_id : Option Uuid
  pub rotate_at : Option Nanos
  pub note : Text
  pub created_at : Nanos
  pub last_used_at : Option Nanos

pub record KeyMachine : Type 0 where
  pub id : Uuid
  pub key_id : Uuid
  pub account_number : Text
  pub registered_at : Nanos
  pub last_seen_at : Nanos

pub record WatchedSymbol : Type 0 where
  pub id : Uuid
  pub symbol : Text
  pub active : Bool
  pub created_at : Nanos

pub record Signal : Type 0 where
  pub ticket_id : ℤ
  pub signal_type : Text
  pub symbol : Text
  pub direction : Text
  pub price : ℤ
  pub sl : Option ℤ
  pub tp : Option ℤ
  pub lot : ℤ
  pub source_key_id : Option Uuid

pub record SignalRow : Type 0 where
  pub id : Uuid
  pub signal : Signal
  pub received_at : Nanos

pub data DeliveryStatus : Type 0 where
  pending delivered failed dead : DeliveryStatus

pub record DeliveryRow : Type 0 where
  pub id : Uuid
  pub signal_id : Uuid
  pub subscriber_id : Uuid
  pub channel : Text
  pub status : DeliveryStatus
  pub attempts : ℕ
  pub last_attempted_at : Option Nanos
  pub error : Option Text

pub record DeadRow : Type 0 where
  pub id : Uuid
  pub job_payload : Json Job
  pub signal_id : Option Uuid
  pub failure_reason : Text

-- A value of a JSON object: a string, an array (`none` for an element that is no string), or
-- anything else.
pub data ConfigValue : Type 0 where
  text : Text → ConfigValue
  items : List (Option Text) → ConfigValue
  other_value : ConfigValue

abbrev pub Config : Type 0
Config = List (Text × ConfigValue)

-- a row of subscribers; `config` is the JSON of the column
pub record SubscriberRow : Type 0 where
  pub id : Uuid
  pub key_id : Uuid
  pub channel : Text
  pub config : Json Config
  pub active : Bool
  pub created_at : Nanos

-- the struct that the queries return
pub record Subscriber : Type 0 where
  pub id : Uuid
  pub key_id : Uuid
  pub channel : Text
  pub config : Config
  pub active : Bool
  pub created_at : Nanos

pub record Db : Type 0 where
  pub api_keys : List KeyRow
  pub key_machines : List KeyMachine
  pub watched_symbols : List WatchedSymbol
  pub signals : List SignalRow
  pub subscribers : List SubscriberRow
  pub delivery_log : List DeliveryRow
  pub dead_letters : List DeadRow

pub data StoreError : Type 0 where
  driver unique_violation machine_limit not_found : StoreError

abbrev pub empty_db : Db
empty_db = record {
  api_keys = [];
  key_machines = [];
  watched_symbols = [];
  signals = [];
  subscribers = [];
  delivery_log = [];
  dead_letters = [];
}
