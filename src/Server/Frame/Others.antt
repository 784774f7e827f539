-- ===== src/Server/Frame/Others.antt =====
-- The other handlers of the admin leave the signals and the jobs alone.
use tradecast.Prelude.{
  refl, Bool, Option, List, Text, Json, unmarshal, Result, ok, err, is_empty, to_upper, trim_space,
  if-both, arith,
}
use tradecast.Types.{Uuid, Nanos}
use tradecast.Config.{AuthConfig}
use tradecast.Platform.{Platform}
use tradecast.World.{World}
use tradecast.Cache.{Lru}
use tradecast.Cache.SymbolList.{invalidate_symbol_list}
use tradecast.Store.{Db, StoreError, Subscriber}
use tradecast.Store.Machines.{remove_machine}
use tradecast.Store.Subscribers.{create_subscriber, insert_subscriber, set_subscriber_active}
use tradecast.Store.Symbols
use tradecast.Store.Symbols.{upsert_symbol}
use tradecast.Auth.Jwt
use tradecast.Auth.Jwt.{Tokens, TokenError}
use tradecast.Admin
use tradecast.Admin.{Reply}
use tradecast.Admin.Session.{Credentials, login, refreshed, refresh, logout}
use tradecast.Admin.Machines.{removed, remove_machine_handler, list_key_machines}
use tradecast.Admin.Subscribers.{NewSubscriber, subscribed, create, activated, set_active}
use tradecast.Admin.Symbols.{changed, add_symbol, set_symbol_active, delete_symbol}
use tradecast.Server.Frame.{
  KeepsSignals, Keeps, Keeps-refl, with_db, with_id-Keeps, with_body-Keeps, Kept,
}

create_subscriber-KeepsSignals :
    (f g : Bool) (id : Uuid) (now : Nanos) (key : Uuid) (channel : Text)
    (config : tradecast.Store.Config) (db : Db)
    → KeepsSignals db (create_subscriber f g id now key channel config db).1
unfolding create_subscriber insert_subscriber
create_subscriber-KeepsSignals f g id now key channel config db = ground arith

remove_machine-KeepsSignals :
    (f : Bool) (id : Uuid) (account : Text) (db : Db)
    → KeepsSignals db (remove_machine f id account db).1
unfolding remove_machine
remove_machine-KeepsSignals f id account db = ground arith

pub login-Keeps :
    (p : Platform) (t : Tokens) (cfg : AuthConfig) (now : Nanos) (id id' : Uuid)
    (body : Json Credentials) (w : World)
    → Keeps w (login p t cfg now id id' body w).1
unfolding login
login-Keeps p t cfg now id id' body w = with_body-Keeps (unmarshal body) w _ (λ req. Keeps-refl w)

refreshed-Keeps : (w : World) (r : Result TokenError Text × Lru) → Keeps w (refreshed w r).1
refreshed-Keeps w (err e, lru) = (refl, refl, refl, refl, refl)
refreshed-Keeps w (ok token, lru) = (refl, refl, refl, refl, refl)

pub refresh-Keeps :
    (p : Platform) (t : Tokens) (f : Jwt.Faults) (cfg : AuthConfig) (now : Nanos) (id : Uuid)
    (body : Json Text) (w : World)
    → Keeps w (refresh p t f cfg now id body w).1
unfolding refresh
refresh-Keeps p t f cfg now id body w =
    with_body-Keeps (unmarshal body) w _ (λ token. refreshed-Keeps w _)

pub logout-Keeps :
    (t : Tokens) (f : Jwt.Faults) (cfg : AuthConfig) (now : Nanos) (body : Json Text) (w : World)
    → Keeps w (logout t f cfg now body w).1
unfolding logout
logout-Keeps t f cfg now body w = if-both (Keeps w) _ (Keeps-refl w) (refl, refl, refl, refl, refl)

removed-Keeps :
    (account : Text) (w : World) (r : Result StoreError Unit × Db)
    → KeepsSignals w.db r.1
    → Keeps w (removed account w r).1
removed-Keeps account w (err e, db) h = with_db w db h
removed-Keeps account w (ok u, db) h = with_db w db h

pub remove_machine_handler-Keeps :
    (p : Platform) (f : Admin.Faults) (id_text account : Text) (w : World)
    → Keeps w (remove_machine_handler p f id_text account w).1
unfolding remove_machine_handler
remove_machine_handler-Keeps p f id_text account w =
    with_id-Keeps (p.parse_uuid id_text) _ w _ (λ id.
      if-both (Kept w) (is_empty account) (Keeps-refl w)
        (removed-Keeps account w _ (remove_machine-KeepsSignals f.write id account w.db)))

pub list_key_machines-Keeps :
    (p : Platform) (order : List tradecast.Store.KeyMachine → List tradecast.Store.KeyMachine)
    (f g h : Bool) (id_text : Text) (w : World)
    → Keeps w (list_key_machines p order f g h id_text w).1
unfolding list_key_machines
list_key_machines-Keeps p order f g h id_text w =
    with_id-Keeps (p.parse_uuid id_text) _ w _ (λ id. Keeps-refl w)

subscribed-Keeps :
    (w : World) (r : Result StoreError (Option Subscriber) × Db)
    → KeepsSignals w.db r.1
    → Keeps w (subscribed w r).1
subscribed-Keeps w (err e, db) h = with_db w db h
subscribed-Keeps w (ok sub, db) h = with_db w db h

pub create-Keeps :
    (p : Platform) (f : Admin.Faults) (now : Nanos) (id : Uuid) (body : Json NewSubscriber)
    (w : World)
    → Keeps w (create p f now id body w).1
unfolding create
create-Keeps p f now id body w = with_body-Keeps (unmarshal body) w _ (λ req.
    with_id-Keeps (p.parse_uuid req.key_id) _ w _
      (λ key_id. subscribed-Keeps w _ (create_subscriber-KeepsSignals _ _ _ _ _ _ _ w.db)))

set_subscriber_active-KeepsSignals :
    (f : Bool) (id : Uuid) (active : Bool) (db : Db)
    → KeepsSignals db (set_subscriber_active f id active db).1
unfolding set_subscriber_active
set_subscriber_active-KeepsSignals f id active db = ground arith

activated-Keeps :
    (id : Uuid) (active : Bool) (w : World) (r : Result StoreError Unit × Db)
    → KeepsSignals w.db r.1
    → Keeps w (activated id active w r).1
activated-Keeps id active w (err e, db) h = with_db w db h
activated-Keeps id active w (ok u, db) h = with_db w db h

pub set_active-Keeps :
    (p : Platform) (f : Admin.Faults) (id_text : Text) (body : Json Bool) (w : World)
    → Keeps w (set_active p f id_text body w).1
unfolding set_active
set_active-Keeps p f id_text body w = with_id-Keeps (p.parse_uuid id_text) _ w _ (λ id.
    with_body-Keeps (unmarshal body) w _ (λ active.
      activated-Keeps id active w _ (set_subscriber_active-KeepsSignals f.write id active w.db)))

changed-Keeps :
    {A : Type 0} (f : Admin.Faults) (good bad : Reply A) (w : World)
    (r : Result StoreError Unit × Db)
    → KeepsSignals w.db r.1
    → Keeps w (changed f good bad w r).1
unfolding invalidate_symbol_list
changed-Keeps f good bad w (err e, db) h = with_db w db h
changed-Keeps f good bad w (ok u, db) h = ground (arith, h)

store-add_symbol-KeepsSignals :
    (f : Bool) (id : Uuid) (now : Nanos) (s : Text) (db : Db)
    → KeepsSignals db (Symbols.add_symbol f id now s db).1
unfolding Symbols.add_symbol upsert_symbol
store-add_symbol-KeepsSignals f id now s db = ground arith

pub add_symbol-Keeps :
    (f : Admin.Faults) (now : Nanos) (id : Uuid) (body : Json Text) (w : World)
    → Keeps w (add_symbol f now id body w).1
unfolding add_symbol
add_symbol-Keeps f now id body w = with_body-Keeps (unmarshal body) w _ (λ s.
    if-both (Kept w) (is_empty (to_upper (trim_space s))) (Keeps-refl w)
      (changed-Keeps f _ _ w _ (store-add_symbol-KeepsSignals f.write id now _ w.db)))

store-set_symbol_active-KeepsSignals :
    (f : Bool) (s : Text) (active : Bool) (db : Db)
    → KeepsSignals db (Symbols.set_symbol_active f s active db).1
unfolding Symbols.set_symbol_active
store-set_symbol_active-KeepsSignals f s active db = ground arith

pub set_symbol_active-Keeps :
    (f : Admin.Faults) (path : Text) (body : Json Bool) (w : World)
    → Keeps w (set_symbol_active f path body w).1
unfolding set_symbol_active
set_symbol_active-Keeps f path body w = if-both (Kept w) (is_empty (to_upper path)) (Keeps-refl w) (
    with_body-Keeps (unmarshal body) w _ (λ active.
      changed-Keeps f _ _ w _
        (store-set_symbol_active-KeepsSignals f.write (to_upper path) active w.db)))

store-delete_symbol-KeepsSignals :
    (f : Bool) (s : Text) (db : Db) → KeepsSignals db (Symbols.delete_symbol f s db).1
unfolding Symbols.delete_symbol
store-delete_symbol-KeepsSignals f s db = ground arith

pub delete_symbol-Keeps :
    (f : Admin.Faults) (path : Text) (w : World) → Keeps w (delete_symbol f path w).1
unfolding delete_symbol
delete_symbol-Keeps f path w =
    if-both (Kept w) (is_empty (to_upper path)) (Keeps-refl w)
      (changed-Keeps f _ _ w _ (store-delete_symbol-KeepsSignals f.write (to_upper path) w.db))
