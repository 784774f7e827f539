-- ===== src/Worker/Frame.antt =====
-- The handlers that cmd/worker/main.go registers leave the table of signals alone.
use tradecast.Prelude.{
  refl, ◌∙◌, Bool, Option, none, some, List, [], ◌∷◌, Text, Result, ok, err, Every, is_empty,
  if-both, arith,
}
use tradecast.Types.{Uuid, Job}
use tradecast.Platform.{Platform}
use tradecast.Config.{NotifyConfig}
use tradecast.World.Frame.{KeepsSignals, Saved}
use tradecast.Store.{StoreError, Subscriber, Db}
use tradecast.Store.Deliveries.{insert_delivery_log, mark_delivered, mark_failed}
use tradecast.Consumer.{Handler}
use tradecast.Notify.{
  Wire, Env, Visit, address, mark, log_send, deliver_to, deliver, deliver_listed, notify,
}
use tradecast.Notify.Telegram
use tradecast.Notify.Whatsapp
use tradecast.Notify.Webhook
use tradecast.Notify.Mt4copier
use tradecast.Notify.Mt4copier.{wants, copy, copy_to, copy_listed}
use tradecast.Worker.{Envs, handlers}

-- A handler that never changes the signals.
abbrev pub Spares : Handler → Type 0
Spares h = (job : Job) (db : Db) → KeepsSignals db (h job db).1

insert_delivery_log-KeepsSignals :
    (fault : Bool) (id signal_id sub : Uuid) (channel : Text) (db : Db)
    → KeepsSignals db (insert_delivery_log fault id signal_id sub channel db).1
unfolding insert_delivery_log
insert_delivery_log-KeepsSignals fault id signal_id sub channel db = ground arith

mark-KeepsSignals :
    (v : Visit) (id : Uuid) (o : Option Text) (db : Db) → KeepsSignals db (mark v id o db)
unfolding mark mark_delivered mark_failed
mark-KeepsSignals v id none db = ground arith
mark-KeepsSignals v id (some e) db = ground arith

log_send-KeepsSignals :
    (channel : Text) (job : Job) (v : Visit) (sub : Subscriber) (o : Option Text) (db : Db)
    → KeepsSignals db (log_send channel job v sub o db)
unfolding log_send
log_send-KeepsSignals channel job v sub o db =
    let logged = insert_delivery_log v.insert_fault v.log_id job.signal_id sub.id channel db in
    mark-KeepsSignals v logged.0 o logged.1
    ∙ insert_delivery_log-KeepsSignals v.insert_fault v.log_id job.signal_id sub.id channel db

module _ (channel key : Text) (job : Job) (visit : Subscriber → Visit)
    (send : Subscriber → Text → Option Text) where
  deliver_to-KeepsSignals :
      (sub : Subscriber) (o : Option Text) (state : Option Text × Db)
      → KeepsSignals state.1 (deliver_to channel job visit send sub o state).1
  unfolding deliver_to
  deliver_to-KeepsSignals sub none (last, db) = refl
  deliver_to-KeepsSignals sub (some a) (last, db) =
      log_send-KeepsSignals channel job (visit sub) sub (send sub a) db

  deliver-KeepsSignals :
      (subs : List Subscriber) (state : Option Text × Db)
      → KeepsSignals state.1 (deliver channel key job visit send subs state).1
  unfolding deliver
  deliver-KeepsSignals [] state = refl
  deliver-KeepsSignals (sub ∷ subs) state =
      deliver-KeepsSignals subs _ ∙ deliver_to-KeepsSignals sub (address channel key sub) state

deliver_listed-KeepsSignals :
    (channel key : Text) (env : Env) (job : Job) (send : Subscriber → Text → Option Text) (db : Db)
    (r : Result StoreError (List Subscriber))
    → KeepsSignals db (deliver_listed channel key env job send db r).1
unfolding deliver_listed
deliver_listed-KeepsSignals channel key env job send db (err e) = refl
deliver_listed-KeepsSignals channel key env job send db (ok subs) =
    deliver-KeepsSignals channel key job env.visit send subs (none, db)

notify-KeepsSignals :
    (channel key : Text) (env : Env) (send : Subscriber → Text → Option Text) (job : Job) (db : Db)
    → KeepsSignals db (notify channel key env send job db).1
unfolding notify
notify-KeepsSignals channel key env send job db =
    deliver_listed-KeepsSignals channel key env job send db _

copy_to-KeepsSignals :
    (job : Job) (message : Text) (v : Visit) (sub : Subscriber) (state : Option Text × Db)
    → KeepsSignals state.1 (copy_to job message v sub state).1
unfolding copy_to mark_delivered insert_delivery_log
copy_to-KeepsSignals job message v sub (last, db) = ground arith

copy-KeepsSignals :
    (env : Env) (job : Job) (subs : List Subscriber) (state : Option Text × Db)
    → KeepsSignals state.1 (copy env job subs state).1
unfolding copy
copy-KeepsSignals env job [] state = refl
copy-KeepsSignals env job (sub ∷ subs) state =
    copy-KeepsSignals env job subs _
    ∙ if-both (Saved state.1) (wants job.signal.symbol sub)
        (copy_to-KeepsSignals job env.driver_message (env.visit sub) sub state) refl

copy_listed-KeepsSignals :
    (env : Env) (job : Job) (db : Db) (r : Result StoreError (List Subscriber))
    → KeepsSignals db (copy_listed env job db r).1
unfolding copy_listed
copy_listed-KeepsSignals env job db (err e) = refl
copy_listed-KeepsSignals env job db (ok subs) = copy-KeepsSignals env job subs (none, db)

module _ (p : Platform) (wire : Wire) (cfg : NotifyConfig) (envs : Envs) where
  telegram-Spares :
      Spares (Telegram.handle wire cfg.telegram_token cfg.telegram_base_url envs.telegram)
  unfolding Telegram.handle
  telegram-Spares job db =
      if-both (Saved db) (is_empty cfg.telegram_token) refl
        (notify-KeepsSignals _ _ envs.telegram _ job db)

  whatsapp-Spares : Spares (Whatsapp.handle wire cfg envs.whatsapp)
  unfolding Whatsapp.handle
  whatsapp-Spares job db = notify-KeepsSignals _ _ envs.whatsapp _ job db

  webhook-Spares : Spares (Webhook.handle p wire envs.sent_at envs.webhook)
  unfolding Webhook.handle
  webhook-Spares job db = notify-KeepsSignals _ _ envs.webhook _ job db

  mt4copier-Spares : Spares (Mt4copier.handle envs.mt4copier)
  unfolding Mt4copier.handle
  mt4copier-Spares job db = copy_listed-KeepsSignals envs.mt4copier job db _

  pub handlers-Spares : Every Spares (handlers p wire cfg envs)
  unfolding handlers
  handlers-Spares = (telegram-Spares, (whatsapp-Spares, (webhook-Spares, (mt4copier-Spares, tt))))
